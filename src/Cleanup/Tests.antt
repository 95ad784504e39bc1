-- ===== src/Cleanup/Tests.antt =====
-- Runs of the cleanup stack, and the witnesses of its theorems.
use go_certbot.Prelude.{ℕ, ◌≡◌, ◌∷◌, [], some, arith}
use go_certbot.Cleanup.Discard.{discard-register}
use go_certbot.Cleanup.{Handler, register, discard}

-- Callbacks are numbers here.
abbrev handler : Handler ℕ
handler = record {
  stack = record { id = 1; fn = 10 } ∷ record { id = 2; fn = 20 } ∷ [];
  next_id = 2;
}

discard-register_example :
    (discard (register (some 30) handler).0 (register (some 30) handler).1).stack ≡ handler.stack
discard-register_example =
    discard-register 30 handler (omega arith) (omega arith, (omega arith, tt))
