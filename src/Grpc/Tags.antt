-- ===== src/Grpc/Tags.antt =====
-- cGenericGrpcWorker.h: the objects and the tags, counted.
use thread_component.Prelude.{
  ℕ, ◌+◌, ◌≤◌, ◌≡◌, refl, none, some, List, [], ◌∷◌, ◌++◌, arith, if◌then◌else◌, ◌==◌,
}
use thread_component.Grpc.Call.{RpcStatus, Call, find_call, set_status, delete_call, remove}
use thread_component.Grpc.System.{in_tags, total}

abbrev pub is : ℕ → ℕ → ℕ
is t tag = if t == tag then 1 else 0

abbrev pub in_calls : ℕ → List Call → ℕ
in_calls t [] = 0
in_calls t (x ∷ xs) = is t x.tag + in_calls t xs

pub in_tags-append : (t : ℕ) (xs ys : List ℕ) → in_tags t (xs ++ ys) ≡ in_tags t xs + in_tags t ys
in_tags-append t [] ys = omega arith
in_tags-append t (x ∷ xs) ys = omega (arith, in_tags-append t xs ys)

pub in_tags-remove :
    (t tag : ℕ) (xs : List ℕ)
    → 1 ≤ in_tags tag xs
    → in_tags t (remove tag xs) + is t tag ≡ in_tags t xs
unfolding remove
in_tags-remove t tag [] h = absurd (omega arith)
in_tags-remove t tag (x ∷ xs) h = ground (arith, h, in_tags-remove t tag xs)

pub in_calls-set_status :
    (t tag : ℕ) (st : RpcStatus) (xs : List Call)
    → in_calls t (set_status tag st xs) ≡ in_calls t xs
unfolding set_status
in_calls-set_status t tag st [] = refl
in_calls-set_status t tag st (x ∷ xs) = ground (arith, in_calls-set_status t tag st xs)

pub in_calls-delete_call :
    (t tag : ℕ) (st : RpcStatus) (xs : List Call)
    → find_call tag xs ≡ some st
    → in_calls t (delete_call tag xs) + is t tag ≡ in_calls t xs
unfolding find_call delete_call
in_calls-delete_call t tag st [] h = absurd (ground (arith, h))
in_calls-delete_call t tag st (x ∷ xs) h = ground (arith, h, in_calls-delete_call t tag st xs)

pub total-set_status :
    (f : RpcStatus → ℕ) (tag : ℕ) (st st' : RpcStatus) (xs : List Call)
    → find_call tag xs ≡ some st
    → total f (set_status tag st' xs) + f st ≡ total f xs + f st'
unfolding find_call set_status
total-set_status f tag st st' [] h = absurd (ground (arith, h))
total-set_status f tag st st' (x ∷ xs) h = ground (arith, h, total-set_status f tag st st' xs)

pub total-delete_call :
    (f : RpcStatus → ℕ) (tag : ℕ) (st : RpcStatus) (xs : List Call)
    → find_call tag xs ≡ some st
    → total f (delete_call tag xs) + f st ≡ total f xs
unfolding find_call delete_call
total-delete_call f tag st [] h = absurd (ground (arith, h))
total-delete_call f tag st (x ∷ xs) h = ground (arith, h, total-delete_call f tag st xs)

pub find_call-live : (tag : ℕ) (xs : List Call) → find_call tag xs ≡ none → in_calls tag xs ≡ 0
unfolding find_call
find_call-live tag [] h = refl
find_call-live tag (x ∷ xs) h = ground (arith, h, find_call-live tag xs)
