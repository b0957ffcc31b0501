-- ===== src/WebApp/CoreTransport.antt =====
-- packages/web-app/src/runtime.ts, `getCore`: what the page puts between the frontend and the core's
-- transport. A message keeps what the code reads of it; its id and its account are numbers. What is asked
-- of the core's file system is an effect, and its answer is an event.
pub mod Balance
use slothfulchat_web.Prelude.{
  ℕ, Bool, false, not, Option, none, some, List, [], ◌∷◌, ◌++◌, ◌==◌, if◌then◌else◌, keep, any,
  member, Text, codes, is_blank, text_eq,
}
use slothfulchat_web.WebApp.TempPaths.{temp_removal_path}

pub data Method : Type 0 where
  export_backup import_backup get_backup add_account migrate_account other : Method

-- A request, with `params[1]` if that is a string.
pub record Request : Type 0 where
  pub id : Option ℕ
  pub method : Method
  pub second : Option Text

-- A response or an event, with its result if that is a number.
pub record Response : Type 0 where
  pub id : Option ℕ
  pub error : Bool
  pub result : Option ℕ

pub data Effect : Type 0 where
  sent : Request → Effect
  fs_failed fs_flush : ℕ → Effect
  fs_remove : Text → Effect
  delivered : Response → Effect
  check_migration : ℕ → Effect
  restore_warning : ℕ → Effect

-- A successful answer to an import that waits: for the baseline that was asked for with the call of its
-- number, or for the flush.
pub data Held : Type 0 where
  at_baseline at_flush : ℕ → Response → Held

pub record Transport : Type 0 where
  pub pending_imports : List ℕ
  pub pending_opens : List ℕ
  pub staged_imports : List (ℕ × Text)
  pub held : List Held
  -- The last one first.
  pub effects : List Effect

abbrev pub exports_dir : Text
exports_dir = codes "/exports"

abbrev pub put : Effect → Transport → Transport
put e t = record t { effects = e ∷ t.effects }

abbrev pub is_browser : Option Text → Bool
is_browser none = false
is_browser (some path) = text_eq path (codes "<BROWSER>")

abbrev pub rewritten : Method → Request → Request
rewritten export_backup m =
    if is_browser m.second then record m { second = some exports_dir } else m
rewritten import_backup m = m
rewritten get_backup m = m
rewritten add_account m = m
rewritten migrate_account m = m
rewritten other m = m

abbrev pub drop : ℕ → List (ℕ × Text) → List (ℕ × Text)
drop n xs = keep (λ x. not (x.0 == n)) xs

abbrev pub stage : ℕ → Option Text → Transport → Transport
stage n none t = t
stage n (some path) t = record t { staged_imports = (n, path) ∷ drop n t.staged_imports }

abbrev pub add : ℕ → List ℕ → List ℕ
add n ns = if member n ns then ns else n ∷ ns

abbrev pub snapshot : ℕ → Transport → Transport
snapshot n t = record t {
  pending_imports = add n t.pending_imports;
  effects = fs_failed n ∷ t.effects;
}

abbrev pub opens : ℕ → Transport → Transport
opens n t = record t { pending_opens = add n t.pending_opens }

abbrev pub tracked : Method → Option ℕ → Option Text → Transport → Transport
tracked method none second t = t
tracked import_backup (some n) second t = stage n second (snapshot n t)
tracked get_backup (some n) second t = snapshot n t
tracked add_account (some n) second t = opens n t
tracked migrate_account (some n) second t = opens n t
tracked export_backup (some n) second t = t
tracked other (some n) second t = t

-- `_send`
unfoldable pub send : Request → Transport → Transport
send m t = put (sent (rewritten m.method m)) (tracked m.method m.id m.second t)

abbrev pub staged_at : ℕ → List (ℕ × Text) → Option Text
staged_at n [] = none
staged_at n ((m, path) ∷ rest) =
    if m == n then (if is_blank path then none else some path) else staged_at n rest

abbrev pub remove_path : Option Text → Transport → Transport
remove_path none t = t
remove_path (some path) t = put (fs_remove path) t

abbrev pub remove_staged : ℕ → Option Text → Transport → Transport
remove_staged n none t = t
remove_staged n (some staged) t =
    remove_path (temp_removal_path (some staged))
      (record t { staged_imports = drop n t.staged_imports })

abbrev pub forget : ℕ → List ℕ → List ℕ
forget n ns = keep (λ m. not (m == n)) ns

abbrev pub hold : ℕ → Response → Transport → Transport
hold n r t = record t {
  pending_imports = forget n t.pending_imports;
  held = t.held ++ (at_baseline n r ∷ []);
}

abbrev pub deliver : Response → Transport → Transport
deliver r t = put (delivered r) t

abbrev pub check_opened : Option ℕ → Transport → Transport
check_opened none t = t
check_opened (some account) t = put (check_migration account) t

abbrev pub opened : ℕ → Response → Transport → Transport
opened n r t = deliver r (
    if member n t.pending_opens
    then check_opened r.result (record t { pending_opens = forget n t.pending_opens })
    else t)

abbrev pub answer_import : ℕ → Response → Transport → Transport
answer_import n r t =
    if r.error
    then opened n r (record t { pending_imports = forget n t.pending_imports })
    else hold n r t

abbrev pub answer_staged : ℕ → Response → Transport → Transport
answer_staged n r t = if member n t.pending_imports then answer_import n r t else opened n r t

abbrev pub answered : Option ℕ → Response → Transport → Transport
answered none r t = deliver r t
answered (some n) r t = answer_staged n r (remove_staged n (staged_at n t.staged_imports) t)

-- `_onmessage`
unfoldable pub on_message : Response → Transport → Transport
on_message r t = answered r.id r t

-- The first held answer of an import that is at the given point, taken out.
abbrev pub at_number : ℕ → Held → Bool
at_number n (at_baseline m r) = m == n
at_number n (at_flush m r) = false

abbrev pub in_flush : ℕ → Held → Bool
in_flush n (at_baseline m r) = false
in_flush n (at_flush m r) = m == n

abbrev pub to_flush : Held → Held
to_flush (at_baseline n r) = at_flush n r
to_flush (at_flush n r) = at_flush n r

unfoldable pub move_first : ℕ → List Held → List Held
move_first n [] = []
move_first n (h ∷ hs) = if at_number n h then to_flush h ∷ hs else h ∷ move_first n hs

-- The baseline of an import is read, 0 where that failed: the flush is asked for what failed since.
unfoldable pub on_baseline : ℕ → ℕ → Transport → Transport
on_baseline n since t =
    if any (at_number n) t.held
    then record t { held = move_first n t.held; effects = fs_flush since ∷ t.effects }
    else t

abbrev pub answer_of : Held → Response
answer_of (at_baseline n r) = r
answer_of (at_flush n r) = r

unfoldable pub take_flushed : ℕ → List Held → Option Held × List Held
take_flushed n [] = (none, [])
take_flushed n (h ∷ hs) =
    let rest = take_flushed n hs in if in_flush n h then (some h, hs) else (rest.0, h ∷ rest.1)

abbrev pub warn : Option ℕ → Transport → Transport
warn none t = t
warn (some failed) t = if failed == 0 then t else put (restore_warning failed) t

abbrev pub release : Option Held → Option ℕ → Transport → Transport
release none failed t = t
release (some h) failed t = deliver (answer_of h) (warn failed t)

-- The flush for an import answers with the number of failed writes, or rejects.
unfoldable pub on_flushed : ℕ → Option ℕ → Transport → Transport
on_flushed n failed t =
    let out = take_flushed n t.held in release out.0 failed (record t { held = out.1 })

abbrev pub connected : Transport
connected = record {
  pending_imports = [];
  pending_opens = [];
  staged_imports = [];
  held = [];
  effects = [];
}
