-- ===== src/Audit/Tampering.antt =====
-- Two valid chains of an organization that end in one hash.
use mathlib.Core.Path.{subst}
use ratel_financial_platform.Prelude.{
  String, true, List, [], ◌∷◌, ◌≡◌, ◌≢◌, ◌⊎◌, refl, ap, sym, ◌∙◌, arith, inl, inr, length,
}
use ratel_financial_platform.Prelude.Texts.{same_text}
use ratel_financial_platform.Audit.HashChain.{genesis_hash, entry_text, entry_text_v2}
use ratel_financial_platform.Audit.Log.{AuditLogEntry, of_organization, latest, hash_or_genesis}
use ratel_financial_platform.Audit.Verifier.{by_time, entry_of, payload_of, verify}
use ratel_financial_platform.Audit.Order.{latest-last}
use ratel_financial_platform.Audit.Stored.{SamePayload}
use ratel_financial_platform.Audit.Chain.{
  last_hash, hash_of_last, IsChain, IsHashed, verify-valid_iff,
}
use ratel_financial_platform.Audit.Growth.{count_checked}
use ratel_financial_platform.Audit.Covered.{
  SameEntry, entry_text-injective, entry_text_v2-injective, versions_differ,
}

-- What the hashes of two rows cover is the same: the link, the version, the metadata, and for the
-- second version the payload up to key order.
abbrev pub SameRow : AuditLogEntry → AuditLogEntry → Type 0
SameRow x y =
    (x.prev_hash ≡ y.prev_hash)
    × (x.hash_version ≡ y.hash_version)
    × SameEntry (entry_of x) (entry_of y)
    × ((x.hash_version ≡ 2) → SamePayload (payload_of x) (payload_of y))

abbrev pub SameRows : List AuditLogEntry → List AuditLogEntry → Type 0
SameRows [] [] = Unit
SameRows (x ∷ xs) (y ∷ ys) = SameRow x y × SameRows xs ys
SameRows _ _ = ⊥

-- Two texts with one digest.
abbrev pub Collision : (String → String) → Type 0
Collision sha256 = (s : String) × (t : String) × (s ≢ t) × (sha256 s ≡ sha256 t)

-- The text that a row's hash is the digest of.
abbrev Text : AuditLogEntry → String → Type 0
Text row t =
    ((row.hash_version ≡ 1) × (entry_text row.prev_hash (entry_of row) ≡ t))
    ⊎ ((row.hash_version ≡ 2) × (entry_text_v2 row.prev_hash (entry_of row) (payload_of row) ≡ t))

same_row : (x y : AuditLogEntry) (t : String) → Text x t → Text y t → SameRow x y
same_row x y t (inl (v, a)) (inl (w, b)) =
    let (link, entry) =
      entry_text-injective x.prev_hash y.prev_hash (entry_of x) (entry_of y) (a ∙ sym b) in
    (link, v ∙ sym w, entry, λ two. absurd (omega arith))
same_row x y t (inr (v, a)) (inr (w, b)) =
    let (link, entry, payload) =
      entry_text_v2-injective x.prev_hash y.prev_hash (entry_of x) (entry_of y) (payload_of x)
        (payload_of y) (a ∙ sym b) in
    (link, v ∙ sym w, entry, λ _. payload)
same_row x y t (inl (v, a)) (inr (w, b)) =
    absurd
      (versions_differ x.prev_hash y.prev_hash (entry_of x) (entry_of y) (payload_of y) (a ∙ sym b))
same_row x y t (inr (v, a)) (inl (w, b)) =
    absurd
      (versions_differ y.prev_hash x.prev_hash (entry_of y) (entry_of x) (payload_of x) (b ∙ sym a))

module _ (sha256 : String → String) where
  hashed-Text :
      (row : AuditLogEntry)
      → IsHashed sha256 row
      → (t : String) × Text row t × (sha256 t ≡ row.entry_hash)
  hashed-Text row (inl (v, same)) = (entry_text row.prev_hash (entry_of row), inl (v, refl), same)
  hashed-Text row (inr (v, same)) =
      (entry_text_v2 row.prev_hash (entry_of row) (payload_of row), inr (v, refl), same)

  same_hash :
      (x y : AuditLogEntry)
      → IsHashed sha256 x
      → IsHashed sha256 y
      → x.entry_hash ≡ y.entry_hash
      → SameRow x y ⊎ Collision sha256
  same_hash x y a b same =
      let (s, s_text, s_hash) = hashed-Text x a in
      let (t, t_text, t_hash) = hashed-Text y b in
      elim (same_text s t) [
        | inl e ↦ inl (same_row x y t (subst (Text x) e s_text) t_text)
        | inr differ ↦ inr (s, t, differ, s_hash ∙ same ∙ sym t_hash)
      ]

  anchored :
      (p q : String) (xs ys : List AuditLogEntry)
      → IsChain sha256 p xs
      → IsChain sha256 q ys
      → length xs ≡ length ys
      → last_hash p xs ≡ last_hash q ys
      → ((p ≡ q) × SameRows xs ys) ⊎ Collision sha256
  anchored p q [] [] _ _ _ e = inl (e, tt)
  anchored p q [] (y ∷ ys) _ _ len e = absurd (omega (arith, len))
  anchored p q (x ∷ xs) [] _ _ len e = absurd (omega (arith, len))
  anchored p q (x ∷ xs) (y ∷ ys) ((px, hx), cx) ((qy, hy), cy) len e =
      elim (anchored x.entry_hash y.entry_hash xs ys cx cy (omega (arith, len)) e) [
        | inr clash ↦ inr clash
        | inl (hashes, rows) ↦ elim (same_hash x y hx hy hashes) [
          | inr clash ↦ inr clash
          | inl row ↦ inl (sym px ∙ row.0 ∙ qy, (row, rows))
        ]
      ]

  -- The hash of an organization's last entry vouches for all of its history: when the verifier accepts
  -- the organization's rows in two tables, counts the same number of them, and the latest rows have
  -- the same hash, then, row by row in the order of their times, the rows have the same link, version,
  -- organization, entity, action, actor, correlation and time, and rows of version 2 have the same
  -- old value, new value and reason (up to the order of keys, and as long as no key in them is
  -- `__proto__`, which is not hashed); or two different texts with the same digest have been found. Rows of version 1 are not protected in their payload.
  pub same_history :
      (org : String) (before after : List AuditLogEntry)
      → (verify sha256 org before).valid ≡ true
      → (verify sha256 org after).valid ≡ true
      → (verify sha256 org before).entries_checked ≡ (verify sha256 org after).entries_checked
      → hash_or_genesis (latest (of_organization org before))
        ≡ hash_or_genesis (latest (of_organization org after))
      → SameRows (by_time (of_organization org before)) (by_time (of_organization org after))
        ⊎ Collision sha256
  same_history org before after valid valid' count tip =
      let xs = by_time (of_organization org before) in
      let ys = by_time (of_organization org after) in
      let tips =
        sym (hash_of_last xs)
        ∙ sym (ap hash_or_genesis (latest-last (of_organization org before)))
        ∙ tip
        ∙ ap hash_or_genesis (latest-last (of_organization org after))
        ∙ hash_of_last ys in
      elim (anchored genesis_hash genesis_hash xs ys
        ((verify-valid_iff sha256 org before).2.0 valid)
        ((verify-valid_iff sha256 org after).2.0 valid')
        (sym (count_checked sha256 org before) ∙ count ∙ count_checked sha256 org after) tips) [
          | inl (_, rows) ↦ inl rows
          | inr clash ↦ inr clash
        ]
