-- ===== src/Audit/Log.antt =====
-- The bounded audit log, `InMemoryAuditLog` (backend/src/homeflow/audit/log.py): `deque(maxlen=n)` is
-- the list of its entries, oldest first.
use homeflow.Base.{
  ℕ, zero, suc, ◌+◌, ◌-◌, ◌≤◌, ◌≡◌, ◌∙◌, ap, sym, List, [], ◌∷◌, ◌++◌, arith, length, length-append,
  drop, length-drop,
}
use homeflow.Audit.{AuditEntry}
use mathlib.Core.List.{reverse, append-nil, append_assoc}

pub record InMemoryAuditLog : Type 0 where
  pub max_entries : ℕ
  pub entries : List AuditEntry

-- `record`: the oldest entries beyond the bound fall out.
unfoldable pub append : AuditEntry → InMemoryAuditLog → InMemoryAuditLog
append e l =
    let all = l.entries ++ e ∷ [] in record l { entries = drop (length all - l.max_entries) all }

-- `recent`; a limit that is not positive gives nothing.
unfoldable pub recent : ℕ → InMemoryAuditLog → List AuditEntry
recent zero l = []
recent (suc limit) l = reverse (drop (length l.entries - suc limit) l.entries)

-- Entries recorded one after another.
abbrev append_all : List AuditEntry → InMemoryAuditLog → InMemoryAuditLog
append_all [] l = l
append_all (e ∷ es) l = append_all es (append e l)

drop_split :
    {A : Type 0} (b n k : ℕ) (xs ys : List A)
    → b ≤ length xs
    → k ≡ b + n
    → drop n (drop b xs ++ ys) ≡ drop k (xs ++ ys)
drop_split zero n k xs ys h e = let q : k ≡ n = omega arith in rw q
drop_split (suc b) n k [] ys h e = (let no : ⊥ = omega arith in elim no [ ])
drop_split (suc b) n zero (x ∷ xs) ys h e = (let no : ⊥ = omega arith in elim no [ ])
drop_split (suc b) n (suc k) (x ∷ xs) ys h e = drop_split b n k xs ys (omega arith) (omega arith)

-- A log that respects its bound keeps the newest entries of all that are recorded, in order, and as
-- many of them as the bound allows.
append_all_keeps :
    (es : List AuditEntry) (l : InMemoryAuditLog)
    → length l.entries ≤ l.max_entries
    → (append_all es l).entries
      ≡ drop (length l.entries + length es - l.max_entries) (l.entries ++ es)
unfolding append
append_all_keeps [] l h =
    let z : length l.entries + 0 - l.max_entries ≡ 0 = omega arith in
    rw z (sym (append-nil l.entries))
append_all_keeps (e ∷ es) l h =
    append_all_keeps es (append e l) fits
    ∙ drop_split gone n (length l.entries + suc (length es) - l.max_entries) all es less total
    ∙ ap (drop (length l.entries + suc (length es) - l.max_entries))
        (append_assoc l.entries (e ∷ []) es)
  where
    all : List AuditEntry
    all = l.entries ++ e ∷ []

    gone : ℕ
    gone = length all - l.max_entries

    n : ℕ
    n = length (drop gone all) + length es - l.max_entries

    fits : length (drop gone all) ≤ l.max_entries
    fits = omega (arith, length-drop gone all)

    less : gone ≤ length all
    less = omega arith

    total : length l.entries + suc (length es) - l.max_entries ≡ gone + n
    total = omega (arith, length-drop gone all, length-append l.entries (e ∷ []))
