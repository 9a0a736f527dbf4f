-- ===== src/Delegation/Chain.antt =====
-- What `ParseDelegationChain` returns for a nesting of objects.
use Prim.Native.Nat.add
use mathlib.Core.List.{head?, map-append}
use toolhive_core.Base.{
  ℕ, zero, suc, ◌+◌, ◌-◌, ◌≤◌, ◌<◌, ◌≡◌, refl, sym, ap, ◌∙◌, Bool, true, false, List, [], ◌∷◌, ◌++◌,
  map, append_assoc, append-nil, Option, some, if◌then◌else◌, ltb, length, take, take-nil, arith,
}
use toolhive_core.Base.Int.{ℤ}
use toolhive_core.Delegation.{
  Value, nil, str, other, obj, Members, member_at, MalformedReason, nested_act_not_object,
  iss_not_string, sub_not_string, DelegationChain, empty_chain, flag_malformed, is_ill_typed,
  hop_of, add_hop, truncate, parse_hops, depth_cap, depth_members, parse_delegation_chain,
}
use toolhive_core.Delegation.Nesting.{
  Nested, Nested-total, innermost, broken, around, next_innermost, next_broken, next_around,
  depth-inner, count-Nested,
}

-- What is wrong with the claims of one object, in the order of the tests.
abbrev pub claim_faults : Members → List MalformedReason
claim_faults ms =
    (if is_ill_typed (member_at "iss" ms) then iss_not_string ∷ [] else [])
    ++ (if is_ill_typed (member_at "sub" ms) then sub_not_string ∷ [] else [])

abbrev pub all_claim_faults : List Members → List MalformedReason
all_claim_faults [] = []
all_claim_faults (ms ∷ hs) = claim_faults ms ++ all_claim_faults hs

abbrev pub act_fault : Bool → List MalformedReason
act_fault true = nested_act_not_object ∷ []
act_fault false = []

abbrev pub has_some {ℓ} : {A : Type ℓ} → List A → Bool
has_some [] = false
has_some (x ∷ xs) = true

-- A chain holds the hops of some objects, is malformed exactly if there is a fault, and names the
-- first fault; it says whether it is truncated, and how many hops it leaves out.
pub record IsChain (hs : List Members) (faults : List MalformedReason) (cut : Bool) (dropped : ℕ)
    (c : DelegationChain) : Type 0 where
  pub hops : c.chain ≡ map hop_of hs
  pub is_malformed : c.malformed ≡ has_some faults
  pub names_first : c.malformed_reason ≡ head? faults
  pub is_truncated : c.truncated ≡ cut
  pub counts : c.omitted ≡ dropped

empty-IsChain : IsChain [] [] false 0 empty_chain
empty-IsChain = record {
  hops = refl;
  is_malformed = refl;
  names_first = refl;
  is_truncated = refl;
  counts = refl;
}

flag-IsChain :
    (r : MalformedReason) {hs : List Members} (faults : List MalformedReason) {cut : Bool}
    {dropped : ℕ} {c : DelegationChain}
    → IsChain hs faults cut dropped c
    → IsChain hs (faults ++ r ∷ []) cut dropped (flag_malformed r c)
unfolding flag_malformed
flag-IsChain r [] i = record {
  hops = i.hops;
  is_malformed = refl;
  names_first = rw i.names_first;
  is_truncated = i.is_truncated;
  counts = i.counts;
}
flag-IsChain r (f ∷ faults) i = record {
  hops = i.hops;
  is_malformed = refl;
  names_first = rw i.names_first;
  is_truncated = i.is_truncated;
  counts = i.counts;
}

flag_if-IsChain :
    (b : Bool) (r : MalformedReason) {hs : List Members} (faults : List MalformedReason)
    {cut : Bool} {dropped : ℕ} {c : DelegationChain}
    → IsChain hs faults cut dropped c
    → IsChain hs
        (faults ++ (if b then r ∷ [] else []))
        cut
        dropped
        (if b then flag_malformed r c else c)
flag_if-IsChain true r faults i = flag-IsChain r faults i
flag_if-IsChain false r faults i = rw (append-nil faults) i

map-append_one :
    (hs : List Members) (ms : Members)
    → map hop_of (hs ++ ms ∷ []) ≡ map hop_of hs ++ hop_of ms ∷ []
map-append_one hs ms = map-append hop_of hs (ms ∷ [])

add_hop-IsChain :
    (ms : Members) (hs : List Members) (faults : List MalformedReason) {cut : Bool} {dropped : ℕ}
    {c : DelegationChain}
    → IsChain hs faults cut dropped c
    → IsChain (hs ++ ms ∷ []) (faults ++ claim_faults ms) cut dropped (add_hop ms c)
unfolding add_hop
add_hop-IsChain ms hs faults i =
    let i1 = flag_if-IsChain (is_ill_typed (member_at "iss" ms)) iss_not_string faults i in
    let i2 = flag_if-IsChain (is_ill_typed (member_at "sub" ms)) sub_not_string _ i1 in
    rw (← append_assoc) (record {
      hops = ap (λ l. l ++ hop_of ms ∷ []) i2.hops ∙ sym (map-append_one hs ms);
      is_malformed = i2.is_malformed;
      names_first = i2.names_first;
      is_truncated = i2.is_truncated;
      counts = i2.counts;
    })

-- The answer for the objects `hs`, after those of `done`, with room for so many more.
abbrev Answer :
    List Members → List MalformedReason → ℕ → List Members → Bool → Option DelegationChain → Type 0
Answer done faults room hs b r =
    (c : DelegationChain) × (r ≡ some c)
    × IsChain (done ++ take room hs) (faults ++ all_claim_faults (take room hs) ++ act_fault b)
        (ltb room (length hs)) (length hs - room) c

IsChain-cast :
    {hs hs' : List Members} {f f' : List MalformedReason} {t t' : Bool} {d d' : ℕ}
    {c : DelegationChain}
    → hs ≡ hs'
    → f ≡ f'
    → t ≡ t'
    → d ≡ d'
    → IsChain hs f t d c
    → IsChain hs' f' t' d' c
IsChain-cast a b e g i = rw (← a, ← b, ← e, ← g) i

cut_off :
    (hs : List Members) (faults : List MalformedReason) (dropped : ℕ) {c : DelegationChain}
    → IsChain hs faults false 0 c
    → IsChain hs faults true dropped (record c { truncated = true; omitted = c.omitted + dropped })
cut_off hs faults dropped i = record {
  hops = i.hops;
  is_malformed = i.is_malformed;
  names_first = i.names_first;
  is_truncated = refl;
  counts = omega (arith, i.counts);
}

truncate-Answer :
    (done : List Members) (faults : List MalformedReason) (hs : List Members) (b : Bool)
    {c : DelegationChain}
    → 0 < length hs
    → IsChain done faults false 0 c
    → Answer done faults 0 hs b (truncate c (some (length hs, b)))
unfolding truncate
truncate-Answer done faults hs b pos i = (
  _,
  refl,
  IsChain-cast (sym (append-nil done)) (ap (λ l. l ++ act_fault b) (sym (append-nil faults)))
      (ground arith) (omega arith) (by_fault b (cut_off done faults (length hs) i)),
)
  where
    by_fault :
        (b : Bool) {cut : Bool} {dropped : ℕ} {c : DelegationChain}
        → IsChain done faults cut dropped c
        → IsChain done
            (faults ++ act_fault b)
            cut
            dropped
            (if b then flag_malformed nested_act_not_object c else c)
    by_fault true i = flag-IsChain nested_act_not_object faults i
    by_fault false i = rw (append-nil faults) i

Nested-pos : {ms : Members} {hs : List Members} {b : Bool} → Nested ms hs b → 0 < length hs
Nested-pos (innermost e) = omega arith
Nested-pos (broken v e i) = omega arith
Nested-pos (around e n) = omega arith

-- The last hop of a chain that ends within the room.
last_hop :
    (room : ℕ) (ms : Members) (done : List Members) (faults : List MalformedReason) (b : Bool)
    {c' : DelegationChain}
    → IsChain (done ++ ms ∷ []) (faults ++ claim_faults ms ++ act_fault b) false 0 c'
    → IsChain
        (done ++ take (suc room) (ms ∷ []))
        (faults ++ all_claim_faults (take (suc room) (ms ∷ [])) ++ act_fault b)
        (ltb (suc room) 1)
        (1 - suc room)
        c'
last_hop room ms done faults b i = rw (take-nil room) (
    IsChain-cast refl (ap (λ l. faults ++ l ++ act_fault b) (sym (append-nil (claim_faults ms))))
      (ground arith) (omega arith) i)

parse_hops-Answer :
    {ms : Members} {hs : List Members} {b : Bool} (fuel room : ℕ) (done : List Members)
    (faults : List MalformedReason) {c : DelegationChain}
    → depth_members ms < fuel
    → IsChain done faults false 0 c
    → Nested ms hs b
    → Answer done faults room hs b (parse_hops fuel room ms c)
unfolding parse_hops
parse_hops-Answer {hs} {b} fuel zero done faults h i n =
    rw (count-Nested fuel 0 h n, add.zero) (truncate-Answer done faults hs b (Nested-pos n) i)
parse_hops-Answer {ms} fuel (suc room) done faults h i (innermost e) =
    rw (next_innermost ms e, parse_hops)
      (
        _,
        refl,
        last_hop room ms done faults false
            (rw (append-nil (faults ++ claim_faults ms)) (add_hop-IsChain ms done faults i)),
      )
parse_hops-Answer {ms} fuel (suc room) done faults h i (broken v e w) =
    rw (next_broken ms v e w, parse_hops)
      (
        _,
        refl,
        last_hop room ms done faults true
            (flag-IsChain nested_act_not_object _ (add_hop-IsChain ms done faults i)),
      )
parse_hops-Answer {ms} fuel (suc room) done faults {c} h i (around {inner} {hs} {b} e n) =
    let (c', ends, chain) =
      parse_hops-Answer fuel room (done ++ ms ∷ []) (faults ++ claim_faults ms) {c = add_hop ms c}
        (omega (arith, depth-inner ms inner e)) (add_hop-IsChain ms done faults i) n in
    rw (next_around ms inner e, parse_hops)
      (
        c',
        ends,
        IsChain-cast (append_assoc done (ms ∷ []) (take room hs))
            (ap (λ l. l ++ act_fault b)
              (append_assoc faults (claim_faults ms) (all_claim_faults (take room hs))))
            (ground arith) (omega arith) chain,
      )

-- Take a nesting of objects: `hs`, the outermost first, of which the innermost has an act member
-- that is no object exactly if `b` is true. The parse ends. With a cap of n hops (the default 16
-- where the argument is not positive), the chain holds the hops of the first n objects, it is
-- truncated exactly if there are more, and it counts those as omitted; it is malformed exactly if a
-- claim of those n objects or the innermost act member is ill-typed, and names the first such fault.
pub parse_delegation_chain_lem :
    (max_depth : ℤ) (ms : Members) (hs : List Members) (b : Bool)
    → Nested ms hs b
    → (c : DelegationChain) × (parse_delegation_chain (obj ms) max_depth ≡ some c)
      × IsChain
          (take (depth_cap max_depth) hs)
          (all_claim_faults (take (depth_cap max_depth) hs) ++ act_fault b)
          (ltb (depth_cap max_depth) (length hs))
          (length hs - depth_cap max_depth)
          c
unfolding parse_delegation_chain
parse_delegation_chain_lem max_depth ms hs b n =
    parse_hops-Answer (suc (depth_members ms)) (depth_cap max_depth) [] [] (omega arith)
      empty-IsChain n

length-take-le : (n : ℕ) (hs : List Members) → length (map hop_of (take n hs)) ≤ n
length-take-le zero hs = omega arith
length-take-le (suc n) [] = omega arith
length-take-le (suc n) (ms ∷ hs) = omega (arith, length-take-le n hs)

-- The parse of any value ends, and its chain holds no more hops than the cap.
pub parse_delegation_chain_total :
    (raw : Value) (max_depth : ℤ)
    → (c : DelegationChain) × (parse_delegation_chain raw max_depth ≡ some c)
      × (length c.chain ≤ depth_cap max_depth)
unfolding parse_delegation_chain flag_malformed
parse_delegation_chain_total nil max_depth = (_, refl, omega arith)
parse_delegation_chain_total (str s) max_depth = (_, refl, omega arith)
parse_delegation_chain_total (other n) max_depth = (_, refl, omega arith)
parse_delegation_chain_total (obj ms) max_depth =
    let (hs, b, n) = Nested-total ms in
    let (c, ends, chain) = parse_delegation_chain_lem max_depth ms hs b n in
    (c, ends, rw chain.hops (length-take-le (depth_cap max_depth) hs))
