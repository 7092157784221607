-- ===== src/TcpSyncClient/Exchange.antt =====
-- cTCPSyncClient_V2.h: the one-shot exchanges, which close the connection when they are left.
use thread_component.Prelude.{ℕ, Bool, none, some, [], not, if◌then◌else◌}
use thread_component.TcpSyncClient.Client.{success, failed, Client, connect, close, shutdown_write}
use thread_component.TcpSyncClient.Os.{Os}
use thread_component.TcpSyncClient.Receive.{Received, give, receive_some, receive_until_closed}
use thread_component.TcpSyncClient.Send.{Region, send_all}

module _ (os : Os) where
  open os use {World}

  -- `closeOnExit`, on the way out of the method (scope_exit.h).
  unfoldable pub close_on_exit : Received os → Received os
  close_on_exit none = none
  close_on_exit (some (r, out, c, w)) = let (c', w') = close os c w in some (r, out, c', w')

  unfoldable pub exchange_once : ℕ → Region → ℕ → Client → World → Received os
  unfolding close_on_exit
  exchange_once fuel request max_response_bytes c w =
      let (connected, c₁, w₁) = connect os c w in
      if not connected
      then give os failed [] c₁ w₁
      else close_on_exit (elim (send_all os fuel request c₁ w₁) [
        | none ↦ none
        | some (success, c₂, w₂) ↦ receive_some os fuel max_response_bytes c₂ w₂
        | some (r, c₂, w₂) ↦ give os r [] c₂ w₂
      ])

  unfoldable pub after_shutdown : ℕ → ℕ → Bool × Client × World → Received os
  after_shutdown fuel max_response_bytes (done, c, w) =
      if not done
      then give os failed [] c w
      else receive_until_closed os fuel fuel max_response_bytes c w

  unfoldable pub exchange_once_until_closed : ℕ → Region → ℕ → Client → World → Received os
  unfolding close_on_exit after_shutdown
  exchange_once_until_closed fuel request max_response_bytes c w =
      let (connected, c₁, w₁) = connect os c w in
      if not connected
      then give os failed [] c₁ w₁
      else close_on_exit (elim (send_all os fuel request c₁ w₁) [
        | none ↦ none
        | some (success, c₂, w₂) ↦ after_shutdown fuel max_response_bytes (shutdown_write os c₂ w₂)
        | some (r, c₂, w₂) ↦ give os r [] c₂ w₂
      ])
