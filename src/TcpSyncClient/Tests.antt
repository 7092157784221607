-- ===== src/TcpSyncClient/Tests.antt =====
-- The theorems on the client, on the small operating system of `Loopback`.
use thread_component.Prelude.{ℕ, refl, some, List, [], ◌∷◌, arith, Returns}
use thread_component.TcpSyncClient.Closing.{Leaves, connect-Leaves}
use thread_component.TcpSyncClient.Client.{Client, new, connect, close}
use thread_component.TcpSyncClient.Delimiter.{TakesUntil, receive_until_delimiter-TakesUntil}
use thread_component.TcpSyncClient.Delivery.Receiving.{TakesExactly, receive_exact-TakesExactly}
use thread_component.TcpSyncClient.Delivery.Sending.{Delivers, send_all-Delivers}
use thread_component.TcpSyncClient.Loopback.{loopback, loopback_laws, loopback_descriptors, quiet}
use thread_component.TcpSyncClient.Receive.{
  contains, receive_exact, receive_until_closed, receive_until_delimiter,
}
use thread_component.TcpSyncClient.UntilClosed.{TakesAll, receive_until_closed-TakesAll}
use thread_component.TcpSyncClient.Exchange.{exchange_once, exchange_once_until_closed}
use thread_component.TcpSyncClient.Shut.{Disconnected, exchange_once-Disconnected}
use thread_component.TcpSyncClient.Send.{at, send_all}

abbrev client : Client
client = record (new [] 80) { socket = some 3 }

abbrev crlf : List ℕ
crlf = 13 ∷ 10 ∷ []

send_all-Delivers_example :
    Returns
      (Delivers loopback_laws 3 (1 ∷ 2 ∷ 3 ∷ []) [] 2 (some 3))
      (send_all loopback 6 (at (1 ∷ 2 ∷ 3 ∷ [])) client quiet)
unfolding loopback_laws
send_all-Delivers_example =
    send_all-Delivers loopback_laws 6 3 (1 ∷ 2 ∷ 3 ∷ []) client quiet refl (omega arith)

receive_exact-TakesExactly_example :
    Returns (TakesExactly loopback_laws 3 4 [] (some 3)) (receive_exact loopback 7 4 client quiet)
unfolding loopback_laws
receive_exact-TakesExactly_example =
    receive_exact-TakesExactly loopback_laws 7 3 4 client quiet refl (omega arith)

receive_until_delimiter-TakesUntil_example :
    Returns
      (TakesUntil loopback_laws (contains crlf) 3 100 [])
      (receive_until_delimiter loopback 101 3 crlf 100 client quiet)
unfolding loopback_laws
receive_until_delimiter-TakesUntil_example =
    receive_until_delimiter-TakesUntil loopback_laws 101 3 3 crlf 100 client quiet refl refl
      (omega arith) (omega arith) (omega arith)

receive_until_closed-TakesAll_example :
    Returns (TakesAll loopback_laws 3 100 []) (receive_until_closed loopback 101 3 100 client quiet)
unfolding loopback_laws
receive_until_closed-TakesAll_example =
    receive_until_closed-TakesAll loopback_laws 101 3 3 100 client quiet refl (omega arith)
      (omega arith) (omega arith)

connect-Leaves_example :
    Leaves loopback_descriptors (close loopback client quiet).1 (connect loopback client quiet)
connect-Leaves_example = connect-Leaves loopback_descriptors client quiet

exchange_once-Disconnected_example :
    Returns
      (Disconnected loopback_laws loopback_descriptors)
      (exchange_once loopback 11 (at (1 ∷ 2 ∷ 3 ∷ [])) 10 client quiet)
    × Returns
        (Disconnected loopback_laws loopback_descriptors)
        (exchange_once_until_closed loopback 11 (at (1 ∷ 2 ∷ 3 ∷ [])) 10 client quiet)
unfolding connect loopback_laws
exchange_once-Disconnected_example =
    exchange_once-Disconnected loopback_laws loopback_descriptors 11 (1 ∷ 2 ∷ 3 ∷ []) 10 client
      quiet (omega arith) (omega arith)
