-- ===== src/Audit/Order.antt =====
-- Rows in the order of their times, and the last of them.
use mathlib.Core.List.{Memᴰ}
use ratel_financial_platform.Prelude.{
  ◌↔◌, ◌⊎◌, ℕ, ◌≤◌, ◌<◌, Option, none, some, List, [], ◌∷◌, ◌++◌, ◌≡◌, refl, ap, sym, ◌∙◌, arith,
  Bool-cases, inl, inr, leb, All,
}
use ratel_financial_platform.Audit.Log.{AuditLogEntry, latest, later}
use ratel_financial_platform.Audit.Verifier.{insert_by_time, by_time}

abbrev pub last : List AuditLogEntry → Option AuditLogEntry
last [] = none
last (x ∷ []) = some x
last (x ∷ y ∷ ys) = last (y ∷ ys)

abbrev pub From : ℕ → List AuditLogEntry → Type 0
From t = All (λ r. t ≤ r.created_at)

abbrev pub Ascending : List AuditLogEntry → Type 0
Ascending [] = Unit
Ascending (x ∷ xs) = From x.created_at xs × Ascending xs

From-le : (s t : ℕ) (xs : List AuditLogEntry) → s ≤ t → From t xs → From s xs
From-le s t [] le h = tt
From-le s t (x ∷ xs) le (p, h) = (omega arith, From-le s t xs le h)

insert-From :
    (t : ℕ) (r : AuditLogEntry) (xs : List AuditLogEntry)
    → t ≤ r.created_at
    → From t xs
    → From t (insert_by_time r xs)
unfolding insert_by_time
insert-From t r [] le h = (le, tt)
insert-From t r (x ∷ xs) le (p, h) = elim (Bool-cases (leb r.created_at x.created_at)) [
  | inl e ↦ rw e (le, (p, h))
  | inr e ↦ rw e (p, insert-From t r xs le h)
]

insert-Ascending :
    (r : AuditLogEntry) (xs : List AuditLogEntry) → Ascending xs → Ascending (insert_by_time r xs)
unfolding insert_by_time
insert-Ascending r [] h = (tt, tt)
insert-Ascending r (x ∷ xs) (f, h) = elim (Bool-cases (leb r.created_at x.created_at)) [
  | inl e ↦
      let le : r.created_at ≤ x.created_at = ground arith in
      rw e ((le, From-le r.created_at x.created_at xs le f), (f, h))
  | inr e ↦
      let le : x.created_at ≤ r.created_at = ground arith in
      rw e (insert-From x.created_at r xs le f, insert-Ascending r xs h)
]

pub by_time-Ascending : (xs : List AuditLogEntry) → Ascending (by_time xs)
unfolding by_time
by_time-Ascending [] = tt
by_time-Ascending (x ∷ xs) = insert-Ascending x (by_time xs) (by_time-Ascending xs)

insert-mem :
    (x r : AuditLogEntry) (rows : List AuditLogEntry)
    → Memᴰ x (insert_by_time r rows) ↔ ((x ≡ r) ⊎ Memᴰ x rows)
unfolding insert_by_time
insert-mem x r [] = (
  λ m. elim m [ Memᴰ.head e ↦ inl e | Memᴰ.tail n ↦ inr n ],
  λ h. elim h [ inl e ↦ Memᴰ.head e | inr m ↦ Memᴰ.tail m ],
)
insert-mem x r (s ∷ ss) = elim (Bool-cases (leb r.created_at s.created_at)) [
  | inl e ↦ rw e (
    λ m. elim m [ Memᴰ.head e ↦ inl e | Memᴰ.tail n ↦ inr n ],
    λ h. elim h [ inl e ↦ Memᴰ.head e | inr m ↦ Memᴰ.tail m ],
  )
  | inr e ↦
      let rest = insert-mem x r ss in
      rw e (
        λ m. elim m [
          | Memᴰ.head e ↦ inr (Memᴰ.head e)
          | Memᴰ.tail n ↦ elim (rest.0 n) [ inl e ↦ inl e | inr k ↦ inr (Memᴰ.tail k) ]
        ],
        λ h. elim h [
          | inl e ↦ Memᴰ.tail (rest.1 (inl e))
          | inr m ↦ elim m [ Memᴰ.head e ↦ Memᴰ.head e | Memᴰ.tail n ↦ Memᴰ.tail (rest.1 (inr n)) ]
        ],
      )
]

-- Sorting keeps the rows.
pub by_time-mem :
    (x : AuditLogEntry) (rows : List AuditLogEntry) → Memᴰ x (by_time rows) ↔ Memᴰ x rows
unfolding by_time
by_time-mem x [] = (λ m. m, λ m. m)
by_time-mem x (r ∷ rows) =
    let put = insert-mem x r (by_time rows) in
    let rest = by_time-mem x rows in
    (
      λ m. elim (put.0 m) [ inl e ↦ Memᴰ.head e | inr n ↦ Memᴰ.tail (rest.0 n) ],
      λ m. put.1 (elim m [ Memᴰ.head e ↦ inl e | Memᴰ.tail n ↦ inr (rest.1 n) ]),
    )

-- A row no later than the next one goes in front of a row at the end.
insert-append_last :
    (r : AuditLogEntry) (xs : List AuditLogEntry) (new : AuditLogEntry)
    → r.created_at ≤ new.created_at
    → insert_by_time r (xs ++ new ∷ []) ≡ insert_by_time r xs ++ new ∷ []
unfolding insert_by_time
insert-append_last r [] new le = ground arith
insert-append_last r (x ∷ xs) new le = ground (arith, insert-append_last r xs new le)

-- A row no earlier than the others is the last.
pub by_time-append_last :
    (xs : List AuditLogEntry) (new : AuditLogEntry)
    → All (λ r. r.created_at ≤ new.created_at) xs
    → by_time (xs ++ new ∷ []) ≡ by_time xs ++ new ∷ []
unfolding by_time insert_by_time
by_time-append_last [] new h = refl
by_time-append_last (x ∷ xs) new (p, h) =
    ap (insert_by_time x) (by_time-append_last xs new h) ∙ insert-append_last x (by_time xs) new p

last-From :
    (t : ℕ) (x : AuditLogEntry) (xs : List AuditLogEntry) (r : AuditLogEntry)
    → r.created_at ≤ t
    → t ≤ x.created_at
    → From t xs
    → later r (last (x ∷ xs)) ≡ last (x ∷ xs)
last-From t x [] r le p h = ground arith
last-From t x (y ∷ ys) r le p (q, h) = last-From t y ys r le q h

last-behind_insert :
    (x r : AuditLogEntry) (xs : List AuditLogEntry)
    → last (x ∷ insert_by_time r xs) ≡ last (insert_by_time r xs)
unfolding insert_by_time
last-behind_insert x r [] = refl
last-behind_insert x r (y ∷ ys) = elim (Bool-cases (leb r.created_at y.created_at)) [
  | inl e ↦ rw e refl
  | inr e ↦ rw e refl
]

later-skip :
    (x r : AuditLogEntry) (xs : List AuditLogEntry)
    → x.created_at < r.created_at
    → later r (last xs) ≡ later r (last (x ∷ xs))
later-skip x r [] h = ground arith
later-skip x r (y ∷ ys) h = refl

last-insert :
    (r : AuditLogEntry) (xs : List AuditLogEntry)
    → Ascending xs
    → last (insert_by_time r xs) ≡ later r (last xs)
unfolding insert_by_time
last-insert r [] h = refl
last-insert r (x ∷ xs) (f, h) = elim (Bool-cases (leb r.created_at x.created_at)) [
  | inl e ↦
      let le : r.created_at ≤ x.created_at = ground arith in
      rw e (
        sym (
          last-From r.created_at x xs r (omega arith) le
            (From-le r.created_at x.created_at xs le f)))
  | inr e ↦
      let lt : x.created_at < r.created_at = ground arith in
      rw e (last-behind_insert x r xs ∙ last-insert r xs h ∙ later-skip x r xs lt)
]

-- The row found by `findFirst` in descending order is the last one in ascending order.
pub latest-last : (rows : List AuditLogEntry) → latest rows ≡ last (by_time rows)
unfolding latest by_time
latest-last [] = refl
latest-last (r ∷ rows) =
    ap (later r) (latest-last rows) ∙ sym (last-insert r (by_time rows) (by_time-Ascending rows))
