-- ===== src/Examples/Transport.antt =====
-- packages/web-app/src/runtime.ts, the transport to the core, at a concrete import.
use slothfulchat_web.Prelude.{◌+◌, ◌≡◌, refl, false, none, some, List, [], ◌∷◌, ◌++◌, codes}
use slothfulchat_web.WebApp.TempPaths.{temp_removal_path}
use slothfulchat_web.WebApp.CoreTransport.{
  import_backup, Request, Response, sent, fs_failed, fs_flush, fs_remove, delivered,
  restore_warning, send, on_message, move_first, on_baseline, take_flushed, on_flushed, connected,
}
use slothfulchat_web.WebApp.CoreTransport.Balance.{
  Happening, asked, responded, baseline_read, flushed, happen, happen_all, arrived, passed_on,
  waiting, answers_balance,
}

abbrev restore : Request
restore = record {
  id = some 7;
  method = import_backup;
  second = some (codes "/tmp/1f2e/backup.tar");
}

abbrev restored : Response
restored = record { id = some 7; error = false; result = none }

abbrev restoring : List Happening
restoring = asked restore ∷ responded restored ∷ baseline_read 7 0 ∷ []

held_test :
    (happen_all restoring connected).effects
    ≡ fs_flush 0 ∷ fs_remove (codes "/tmp/1f2e") ∷ sent restore ∷ fs_failed 7 ∷ []
unfolding happen_all happen send on_message on_baseline move_first temp_removal_path
held_test = refl

warned_test :
    (happen_all (restoring ++ (flushed 7 (some 2) ∷ [])) connected).effects
    ≡ delivered restored ∷ restore_warning 2 ∷ (happen_all restoring connected).effects
unfolding happen_all happen send on_message on_baseline on_flushed move_first take_flushed
    temp_removal_path
warned_test = refl

answers_balance_example :
    let t = happen_all restoring connected in
    arrived (λ r. r.error) restoring
    ≡ passed_on (λ r. r.error) t.effects + waiting (λ r. r.error) t.held
answers_balance_example = answers_balance (λ r. r.error) restoring
