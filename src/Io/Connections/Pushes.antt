-- ===== src/Io/Connections/Pushes.antt =====
-- What a command that the socket tasks of src/io.rs queue does to the history.
use gmv_pjsip.Prelude.{ℕ, ◌≡◌, refl, true, false, List, [], ◌∷◌, ◌++◌, Option, arith, any, all}
use gmv_pjsip.Runtime.State.{SendResult, RuntimeIoCommand, receive, send_done, transport_closed}
use gmv_pjsip.Io.Transmit.{Tasks, push_command}
use gmv_pjsip.Io.Connections.{StreamTask, push_all}
use gmv_pjsip.Io.Connections.Closing.{concerns, closes, sound, History, History-snoc, push-queued}
use gmv_pjsip.Io.Connections.Table.{is_report, Reports, quiet, reports}

module _ {counter : ℕ} {live : ℕ → Option StreamTask} (taken : List RuntimeIoCommand) where
  -- A command that ends nothing is queued.
  pub History-push :
      (c : RuntimeIoCommand) (t : Tasks)
      → History counter live (taken ++ t.commands)
      → sound c ≡ true
      → ((j : ℕ) → closes j c ≡ false)
      → ((j : ℕ) → concerns j c ≡ true → any (closes j) (taken ++ t.commands) ≡ false)
      → History counter live (taken ++ (push_command c t).commands)
  History-push c t h s none_closed fresh = push-queued (History counter live) taken c t h (
      History-snoc live c h h.open_below (λ j e. e) s fresh
        (λ j e. absurd (ground (arith, none_closed j))))

  pub report-push :
      (n : ℕ) (r : SendResult) (t : Tasks)
      → History counter live (taken ++ t.commands)
      → History counter live (taken ++ (push_command (send_done n r) t).commands)
  report-push n r t h =
      History-push (send_done n r) t h refl (λ j. refl) (λ j e. absurd (ground arith))

  pub Reports-push :
      (t t' : Tasks)
      → Reports t t'
      → History counter live (taken ++ t.commands)
      → History counter live (taken ++ t'.commands)
  Reports-push t t' (quiet e) h = rw e h
  Reports-push t t' (reports n r e) h = rw e (report-push n r t h)

  pub reports-push_all :
      (cs : List RuntimeIoCommand) (t : Tasks)
      → all is_report cs ≡ true
      → History counter live (taken ++ t.commands)
      → History counter live (taken ++ (push_all cs t).commands)
  reports-push_all [] t a h = h
  reports-push_all (send_done n r ∷ cs) t a h =
      reports-push_all cs (push_command (send_done n r) t) a (report-push n r t h)
  reports-push_all (receive k p l r d ∷ cs) t a h = absurd (ground arith)
  reports-push_all (transport_closed k p l r st ∷ cs) t a h = absurd (ground arith)
