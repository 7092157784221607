-- ===== src/TcpClient/Moves.antt =====
-- cTCPClient_V2.h: the order of what was sent is kept by each step but the writer's.
use thread_component.Prelude.{
  ℕ, ◌≡◌, refl, sym, ap, ◌∙◌, subst, Bool, true, false, none, some, List, [], ◌∷◌, ◌++◌, arith,
  append-nil, append_assoc,
}
use thread_component.TcpClient.Client.{
  Client, Phase, clearing, opening, checking, joining_reader, stopping, joining_writer, refused,
  skipped, exited, converting, connecting, WriterPc, waiting, locked, popping, sending, loading,
  calling, failing, ended, broken, testing, ReaderPc, Choice, SendResult, RecvResult,
  clear_outbound_queue, close_socket, phase_move, writer_move, reader_move,
}
use thread_component.TcpClient.System.{has_threads, is_locking, cleared}
use thread_component.TcpClient.Writer.{
  flatten, flatten-append, rest_of, IsSplit, IsFed, IsOrderedAt, IsOrdered,
}

push-IsSplit :
    (pc : WriterPc) (wire later bytes : List ℕ) (pushed : List (List ℕ))
    → IsSplit pushed wire pc later
    → IsSplit (pushed ++ bytes ∷ []) wire pc (later ++ bytes)
push-IsSplit pc wire later bytes pushed h =
    flatten-append pushed (bytes ∷ [])
    ∙ ap (λ xs. flatten pushed ++ xs) (append-nil bytes)
    ∙ ap (λ xs. xs ++ bytes) h
    ∙ append_assoc wire (rest_of pc ++ later) bytes
    ∙ ap (λ xs. wire ++ xs) (append_assoc (rest_of pc) later bytes)

unlocked-IsFed :
    (pc : WriterPc) (stop : Bool) (queue queue' : List (List ℕ))
    → is_locking pc ≡ false
    → IsFed pc stop queue
    → IsFed pc stop queue'
unlocked-IsFed locked stop queue queue' l h = absurd (ground (arith, l))
unlocked-IsFed popping stop queue queue' l h = absurd (ground (arith, l))
unlocked-IsFed broken stop queue queue' l h = h
unlocked-IsFed _ stop queue queue' l h = tt

pub push-IsOrdered :
    (s : Client) (bytes : List ℕ) (pushed : List (List ℕ))
    → is_locking s.writer ≡ false
    → IsOrdered s pushed
    → IsOrdered (record s { queue = s.queue ++ bytes ∷ [] }) (pushed ++ bytes ∷ [])
push-IsOrdered s bytes pushed l ((a, (later, b)), f) =
    let pc = s.writer in
    let push =
      λ (xs : List ℕ) (h : IsSplit pushed s.wire pc xs). push-IsSplit pc s.wire xs bytes pushed h in
    let e =
      flatten-append s.queue (bytes ∷ []) ∙ ap (λ xs. flatten s.queue ++ xs) (append-nil bytes) in
    (
      (
        λ i.
            subst (IsSplit (pushed ++ bytes ∷ []) s.wire pc) (sym e) (push (flatten s.queue) (a i)),
        (later ++ bytes, push later b),
      ),
      unlocked-IsFed pc s.stop_requested s.queue (s.queue ++ bytes ∷ []) l f,
    )

pub stop-IsOrdered :
    (pc : WriterPc) (stop : Bool) (queue : List (List ℕ)) (wire : List ℕ) (pushed : List (List ℕ))
    → IsOrderedAt pc stop queue wire pushed
    → IsOrderedAt pc true queue wire pushed
stop-IsOrdered popping stop queue wire pushed h = h
stop-IsOrdered failing stop queue wire pushed h = h
stop-IsOrdered locked stop queue wire pushed ((_, b), _) =
    ((λ i. absurd (ground (arith, i)), b), λ i. absurd (ground (arith, i)))
stop-IsOrdered broken stop queue wire pushed (_, f) = absurd f
stop-IsOrdered _ stop queue wire pushed ((_, b), _) = ((λ i. absurd (ground (arith, i)), b), tt)

clear-IsOrdered :
    (pc : WriterPc) (queue : List (List ℕ)) (wire : List ℕ) (pushed : List (List ℕ))
    → is_locking pc ≡ false
    → IsOrderedAt pc true queue wire pushed
    → IsOrderedAt pc true [] wire pushed
clear-IsOrdered locked queue wire pushed l h = absurd (ground (arith, l))
clear-IsOrdered popping queue wire pushed l h = absurd (ground (arith, l))
clear-IsOrdered failing queue wire pushed l ((_, b), _) = ((λ i. absurd i, b), tt)
clear-IsOrdered broken queue wire pushed l (_, f) = absurd f
clear-IsOrdered _ queue wire pushed l ((_, b), _) = ((λ i. absurd (ground (arith, i)), b), tt)

pub close-IsOrdered :
    (s : Client) (pushed : List (List ℕ)) → IsOrdered s pushed → IsOrdered (close_socket s) pushed
unfolding close_socket
close-IsOrdered s pushed h =
    elim s.socket
      as (λ o.
        IsOrdered
          (elim o [
            | none ↦ s
            | some fd ↦ record s { socket = none; closing = s.closing ++ fd ∷ [] }
          ])
          pushed) [ none ↦ h | some fd ↦ h ]

abbrev pub is_clearing : Phase → Bool
is_clearing clearing = true
is_clearing _ = false

-- Nothing was written when `preRun` clears the queue.
abbrev pub IsUnwritten : Client → Type 0
IsUnwritten s = is_clearing s.phase ≡ true → (s.wire ≡ []) × (s.writer ≡ testing)

pub phase_move-leaves_clearing :
    (c : Choice) (pc : Phase) (s : Client)
    → is_clearing s.phase ≡ is_clearing pc
    → is_clearing (phase_move c pc s).phase ≡ false
unfolding phase_move clear_outbound_queue close_socket
phase_move-leaves_clearing c pc s e = ground arith

pub writer_move-phase :
    (c : SendResult) (pc : WriterPc) (s : Client) → (writer_move c pc s).phase ≡ s.phase
unfolding writer_move
writer_move-phase c pc s = ground arith

pub reader_move-phase :
    (c : RecvResult) (throws : Bool) (pc : ReaderPc) (s : Client)
    → (reader_move c throws pc s).phase ≡ s.phase
unfolding reader_move
reader_move-phase c throws pc s = ground arith

clear_first-IsOrdered :
    (s : Client)
    → (s.wire ≡ []) × (s.writer ≡ testing)
    → IsOrderedAt s.writer s.stop_requested [] s.wire []
clear_first-IsOrdered s (e, e') =
    subst (λ pc. IsOrderedAt pc s.stop_requested [] s.wire []) (sym e')
      (subst (λ xs. IsOrderedAt testing s.stop_requested [] xs []) (sym e)
        ((λ _. refl, ([], refl)), tt))

join_reader-IsOrdered :
    (pc : ReaderPc) (s : Client) (pushed : List (List ℕ))
    → IsOrdered s pushed
    → IsOrdered (elim pc [ ended ↦ record s { phase = stopping } | _ ↦ s ]) pushed
join_reader-IsOrdered ReaderPc.begin s pushed h = h
join_reader-IsOrdered ReaderPc.testing s pushed h = h
join_reader-IsOrdered ReaderPc.loading s pushed h = h
join_reader-IsOrdered ReaderPc.failing s pushed h = h
join_reader-IsOrdered ReaderPc.ended s pushed h = h
join_reader-IsOrdered (ReaderPc.reading fd) s pushed h = h

join_writer-IsOrdered :
    (pc : WriterPc) (s : Client) (pushed : List (List ℕ))
    → IsOrdered s pushed
    → IsOrdered (elim pc [ ended ↦ record s { phase = exited } | _ ↦ s ]) pushed
join_writer-IsOrdered testing s pushed h = h
join_writer-IsOrdered waiting s pushed h = h
join_writer-IsOrdered locked s pushed h = h
join_writer-IsOrdered popping s pushed h = h
join_writer-IsOrdered failing s pushed h = h
join_writer-IsOrdered ended s pushed h = h
join_writer-IsOrdered broken s pushed h = h
join_writer-IsOrdered (sending p t) s pushed h = h
join_writer-IsOrdered (loading p t) s pushed h = h
join_writer-IsOrdered (calling p t fd) s pushed h = h

pub phase_move-IsOrdered :
    (c : Choice) (pc : Phase) (s : Client) (pushed : List (List ℕ))
    → (is_clearing pc ≡ true → (s.wire ≡ []) × (s.writer ≡ testing))
    → IsOrdered s pushed
    → IsOrdered (phase_move c pc s) (cleared pc pushed)
unfolding phase_move clear_outbound_queue
phase_move-IsOrdered c clearing s pushed u h = clear_first-IsOrdered s (u refl)
phase_move-IsOrdered (Choice.gives fd) opening s pushed u h = h
phase_move-IsOrdered Choice.succeeds opening s pushed u h = h
phase_move-IsOrdered Choice.fails opening s pushed u h = h
phase_move-IsOrdered Choice.fails_eintr opening s pushed u h = h
phase_move-IsOrdered Choice.succeeds (converting fd) s pushed u h = h
phase_move-IsOrdered Choice.succeeds (connecting fd) s pushed u h = h
phase_move-IsOrdered _ (converting fd) s pushed u h = close-IsOrdered s pushed h
phase_move-IsOrdered _ (connecting fd) s pushed u h = close-IsOrdered s pushed h
phase_move-IsOrdered c checking s pushed u h = h
phase_move-IsOrdered c joining_reader s pushed u h = join_reader-IsOrdered s.reader s pushed h
phase_move-IsOrdered c stopping s pushed u h =
    stop-IsOrdered s.writer s.stop_requested s.queue s.wire pushed h
phase_move-IsOrdered c joining_writer s pushed u h = join_writer-IsOrdered s.writer s pushed h
phase_move-IsOrdered c refused s pushed u h = h
phase_move-IsOrdered c skipped s pushed u h = h
phase_move-IsOrdered c exited s pushed u h = h

pub has_threads-clearing : (p : Phase) → has_threads p ≡ true → is_clearing p ≡ false
has_threads-clearing p e = ground (arith, e)

pub close-IsUnwritten : (s : Client) → IsUnwritten s → IsUnwritten (close_socket s)
unfolding close_socket
close-IsUnwritten s h =
    elim s.socket
      as (λ o. IsUnwritten (elim o [
        | none ↦ s
        | some fd ↦ record s { socket = none; closing = s.closing ++ fd ∷ [] }
      ])) [ none ↦ h | some fd ↦ h ]

pub reader_move-IsOrdered :
    (c : RecvResult) (throws : Bool) (pc : ReaderPc) (s : Client) (pushed : List (List ℕ))
    → s.reader ≡ pc
    → IsOrdered s pushed
    → IsOrdered (reader_move c throws pc s) pushed
unfolding reader_move
reader_move-IsOrdered c throws ReaderPc.failing s pushed e h =
    stop-IsOrdered s.writer s.stop_requested s.queue s.wire pushed h
reader_move-IsOrdered (RecvResult.got bytes) throws (ReaderPc.reading fd) s pushed e h = h
reader_move-IsOrdered RecvResult.interrupted throws (ReaderPc.reading fd) s pushed e h = h
reader_move-IsOrdered RecvResult.finished throws (ReaderPc.reading fd) s pushed e h = h
reader_move-IsOrdered c throws ReaderPc.begin s pushed e h = h
reader_move-IsOrdered c throws ReaderPc.testing s pushed e h = h
reader_move-IsOrdered c throws ReaderPc.loading s pushed e h = h
reader_move-IsOrdered c throws ReaderPc.ended s pushed e h = h

pub clears-IsOrdered :
    (s : Client) (pushed : List (List ℕ))
    → s.stop_requested ≡ true
    → is_locking s.writer ≡ false
    → IsOrdered s pushed
    → IsOrderedAt s.writer s.stop_requested [] s.wire pushed
clears-IsOrdered s pushed e l h =
    subst (λ b. IsOrderedAt s.writer b [] s.wire pushed) (sym e)
      (clear-IsOrdered s.writer s.queue s.wire pushed l
        (stop-IsOrdered s.writer s.stop_requested s.queue s.wire pushed h))
