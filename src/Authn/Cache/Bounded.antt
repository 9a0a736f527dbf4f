-- ===== src/Authn/Cache/Bounded.antt =====
-- The negative cache stays bounded, and drops only an entry that expires first.
use toolhive_core.Base.{
  ℕ, ◌+◌, ◌≤◌, ◌<◌, ◌≡◌, ◌≢◌, refl, sym, ap, ◌∙◌, false, [], ◌∷◌, none, some, String, str_eq,
  eq_iff, ltb, leb, if◌then◌else◌, length, arith, Bool-cases, inl, inr, ◌⊎◌,
}
use toolhive_core.Base.Dict.{
  lookup, delete, IsDistinct, lookup-insert, lookup-delete, length-insert, length-delete,
  delete-IsDistinct, insert-IsDistinct,
}
use toolhive_core.Authn.Types.{negative_cache_ttl, negative_cache_max_entries}
use toolhive_core.Authn.Cache.{Kids, known_bad_kid, older, oldest_from, oldest_kid, record_bad_kid}

-- No more entries than the bound, one entry to a key id, and no empty key id.
pub record IsBounded (kids : Kids) : Type 0 where
  pub bounded : length kids ≤ negative_cache_max_entries
  pub distinct : IsDistinct kids
  pub named : lookup "" kids ≡ none

pub empty-IsBounded : IsBounded []
unfolding lookup
empty-IsBounded = record { bounded = omega arith; distinct = tt; named = refl }

-- The entry found is in the map, or is the one that the loop began with, and none expires before.
pub record IsOldest (start : String × ℕ) (kids : Kids) (found : String × ℕ) : Type 0 where
  pub present : (found ≡ start) ⊎ (lookup found.0 kids ≡ some found.1)
  pub first : (j : String) (t : ℕ) → lookup j kids ≡ some t → found.1 ≤ t
  pub below : found.1 ≤ start.1

lookup_nil : (j : String) → lookup {Val = ℕ} j [] ≡ none
unfolding lookup
lookup_nil j = refl

older-cases :
    (p q : String × ℕ)
    → p.0 ≢ ""
    → ((older p q ≡ p) × (p.1 ≤ q.1)) ⊎ ((older p q ≡ q) × (q.1 ≤ p.1))
unfolding older
older-cases (kid, o) (k, e) ne = ground (arith, eq_iff kid "")

ne_of_absent :
    (j k : String) (t : ℕ) (kids : Kids)
    → lookup k kids ≡ none
    → lookup j kids ≡ some t
    → str_eq k j ≡ false
ne_of_absent j k t kids a h = elim (Bool-cases (str_eq k j)) [
  | inl e ↦
      let same : lookup k kids ≡ lookup j kids = ap (λ x. lookup x kids) ((eq_iff k j).0 e) in cc
  | inr e ↦ e
]

keep_start :
    (p : String × ℕ) (k : String) (e : ℕ) (kids : Kids) {f : String × ℕ}
    → lookup k kids ≡ none
    → p.1 ≤ e
    → IsOldest p kids f
    → IsOldest p ((k, e) ∷ kids) f
unfolding lookup
keep_start p k e kids {f} a le h = record {
  present = elim h.present [ inl s ↦ inl s | inr g ↦ inr (rw (ne_of_absent f.0 k f.1 kids a g) g) ];
  first = λ j t g. elim (Bool-cases (str_eq k j)) [
    | inl same ↦ let u : e ≡ t = cc (rw same at g) in omega (arith, h.below)
    | inr other ↦ h.first j t (rw other at g)
  ];
  below = h.below;
}

take_entry :
    (p : String × ℕ) (k : String) (e : ℕ) (kids : Kids) {f : String × ℕ}
    → lookup k kids ≡ none
    → e ≤ p.1
    → IsOldest (k, e) kids f
    → IsOldest p ((k, e) ∷ kids) f
unfolding lookup
take_entry p k e kids {f} a le h = record {
  present = inr (elim h.present [
    | inl s ↦
        rw (ap (λ (x : String × ℕ). x.0) s, (eq_iff k k).1 refl)
          (ap (λ (x : String × ℕ). some x.1) (sym s))
    | inr g ↦ rw (ne_of_absent f.0 k f.1 kids a g) g
  ]);
  first = λ j t g. elim (Bool-cases (str_eq k j)) [
    | inl same ↦ let u : e ≡ t = cc (rw same at g) in omega (arith, h.below)
    | inr other ↦ h.first j t (rw other at g)
  ];
  below = omega (arith, h.below);
}

named_tail :
    (k : String) (e : ℕ) (kids : Kids)
    → lookup "" ((k, e) ∷ kids) ≡ none
    → (k ≢ "") × (lookup "" kids ≡ none)
unfolding lookup
named_tail k e kids n = ground (arith, eq_iff k "")

oldest_from-IsOldest :
    (p : String × ℕ) (kids : Kids)
    → p.0 ≢ ""
    → IsDistinct kids
    → lookup "" kids ≡ none
    → IsOldest p kids (oldest_from p kids)
unfolding oldest_from
oldest_from-IsOldest p [] ne d n = record {
  present = inl refl;
  first = λ j t h. cc (lookup_nil j, h);
  below = omega arith;
}
oldest_from-IsOldest p ((k, e) ∷ kids) ne (a, d) n =
    let (kn, n') = named_tail k e kids n in
    elim (older-cases p (k, e) ne) [
      | inl (same, le) ↦ rw same (keep_start p k e kids a le (oldest_from-IsOldest p kids ne d n'))
      | inr (same, le) ↦
          rw same (take_entry p k e kids a le (oldest_from-IsOldest (k, e) kids kn d n'))
    ]

oldest_kid-first :
    (kids : Kids)
    → 0 < length kids
    → IsDistinct kids
    → lookup "" kids ≡ none
    → (t : ℕ) × (lookup (oldest_kid kids) kids ≡ some t)
      × ((j : String) (u : ℕ) → lookup j kids ≡ some u → t ≤ u)
unfolding oldest_kid older
oldest_kid-first [] h d n = absurd (omega arith)
oldest_kid-first ((k, e) ∷ kids) h (a, d) n =
    let (kn, n') = named_tail k e kids n in
    let f = oldest_from (k, e) kids in
    let o : IsOldest (k, e) ((k, e) ∷ kids) f =
      take_entry (k, e) k e kids a (omega arith) (oldest_from-IsOldest (k, e) kids kn d n') in
    (f.1, found f (o.present), o.first)
  where
    found :
        (f : String × ℕ)
        → (f ≡ (k, e)) ⊎ (lookup f.0 ((k, e) ∷ kids) ≡ some f.1)
        → lookup f.0 ((k, e) ∷ kids) ≡ some f.1
    found f (inl s) =
        unfold lookup in
        rw (ap (λ (x : String × ℕ). x.0) s, (eq_iff k k).1 refl)
          (ap (λ (x : String × ℕ). some x.1) (sym s))
    found f (inr g) = g

lookup-record_bad_kid :
    (kids : Kids) (kid j : String) (now : ℕ)
    → lookup j (record_bad_kid kids kid now) ≡ (
        if str_eq kid j
        then some (now + negative_cache_ttl)
        else if leb negative_cache_max_entries (length kids)
        then (if str_eq (oldest_kid kids) j then none else lookup j kids)
        else lookup j kids)
unfolding record_bad_kid
lookup-record_bad_kid kids kid j now =
    elim (Bool-cases (leb negative_cache_max_entries (length kids))) [
      | inl full ↦ rw full (simp (lookup-insert, lookup-delete))
      | inr room ↦ rw room (simp lookup-insert)
    ]

evicted_bound :
    (kids : Kids) (kid : String) (now : ℕ)
    → IsBounded kids
    → length (record_bad_kid kids kid now) ≤ negative_cache_max_entries
unfolding record_bad_kid
evicted_bound kids kid now b = elim (Bool-cases (leb negative_cache_max_entries (length kids))) [
  | inr room ↦ rw room (let s = length-insert kid (now + negative_cache_ttl) kids in ground arith)
  | inl full ↦
      let (t, here, _) = oldest_kid-first kids (ground arith) b.distinct b.named in
      let shorter = length-delete (oldest_kid kids) kids b.distinct here in
      rw full (
        omega (
          arith,
          b.bounded,
          shorter,
          length-insert kid (now + negative_cache_ttl) (delete (oldest_kid kids) kids),
        ))
]

record-IsDistinct :
    (kids : Kids) (kid : String) (now : ℕ)
    → IsDistinct kids
    → IsDistinct (record_bad_kid kids kid now)
unfolding record_bad_kid
record-IsDistinct kids kid now d =
    elim (Bool-cases (leb negative_cache_max_entries (length kids))) [
      | inr room ↦ rw room (insert-IsDistinct kid _ kids d)
      | inl full ↦ rw full (insert-IsDistinct kid _ _ (delete-IsDistinct _ kids d))
    ]

-- Recording a key id keeps the negative cache within its bound, its key ids distinct and none empty.
pub record_bad_kid-IsBounded :
    (kids : Kids) (kid : String) (now : ℕ)
    → kid ≢ ""
    → IsBounded kids
    → IsBounded (record_bad_kid kids kid now)
record_bad_kid-IsBounded kids kid now ne b = record {
  bounded = evicted_bound kids kid now b;
  distinct = record-IsDistinct kids kid now b.distinct;
  named = rw (lookup-record_bad_kid kids kid "" now) (ground (arith, eq_iff kid "", b.named));
}

known_until :
    (kids : Kids) (kid : String) (t : ℕ) {expiry : ℕ}
    → lookup kid kids ≡ some expiry
    → known_bad_kid kids kid t ≡ ltb t expiry
unfolding known_bad_kid
known_until kids kid t h = rw (h, known_bad_kid)

-- A recorded key id is known as bad until the time to live is over, and not from then on; and where
-- recording it drops another key id, the cache was full and no entry of it expires before that one.
pub record_bad_kid_lem :
    (kids : Kids) (kid : String) (now : ℕ)
    → IsBounded kids
    → ((t : ℕ)
        → known_bad_kid (record_bad_kid kids kid now) kid t ≡ ltb t (now + negative_cache_ttl))
      × ((j : String) (u : ℕ)
          → kid ≢ j
          → lookup j kids ≡ some u
          → lookup j (record_bad_kid kids kid now) ≡ none
          → (length kids ≡ negative_cache_max_entries)
            × ((i : String) (t : ℕ) → lookup i kids ≡ some t → u ≤ t))
record_bad_kid_lem kids kid now b = (
  λ t.
      known_until (record_bad_kid kids kid now) kid t
        (lookup-record_bad_kid kids kid kid now ∙ rw ((eq_iff kid kid).1 refl)),
  λ j u ne here gone. dropped j u here (full j u ne here gone),
)
  where
    full :
        (j : String) (u : ℕ)
        → kid ≢ j
        → lookup j kids ≡ some u
        → lookup j (record_bad_kid kids kid now) ≡ none
        → (negative_cache_max_entries ≤ length kids) × (oldest_kid kids ≡ j)
    full j u ne here gone =
        ground
          (arith, lookup-record_bad_kid kids kid j now, eq_iff kid j, eq_iff (oldest_kid kids) j)

    dropped :
        (j : String) (u : ℕ)
        → lookup j kids ≡ some u
        → (negative_cache_max_entries ≤ length kids) × (oldest_kid kids ≡ j)
        → (length kids ≡ negative_cache_max_entries)
          × ((i : String) (t : ℕ) → lookup i kids ≡ some t → u ≤ t)
    dropped j u here (le, same) =
        let (t, oldest, first) = oldest_kid-first kids (omega arith) b.distinct b.named in
        let eq : t ≡ u = cc (ap (λ x. lookup x kids) same) in
        (omega (arith, b.bounded), λ i s g. omega (arith, first i s g))
