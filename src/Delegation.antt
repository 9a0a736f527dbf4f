-- ===== src/Delegation.antt =====
-- The `act` delegation chain of an audit event (audit/delegation.go).
pub mod Nesting
pub mod Chain
mod Tests
use toolhive_core.Base.{
  ℕ, zero, suc, ◌+◌, Bool, true, false, not, ◌&&◌, ◌||◌, List, [], ◌∷◌, ◌++◌, Option, none, some,
  String, str_eq, if◌then◌else◌, length, map,
}
use toolhive_core.Base.Int.{ℤ, pos, negsuc}

-- A dynamic value, as the code tells them apart: nil, a string, a map with string keys (a
-- `map[string]any`, or any other map whose keys have string kind), or a value of another type.
mutual
  pub data Value : Type 0 where
    nil : Value
    str : String → Value
    obj : Members → Value
    other : ℕ → Value

  pub data Members : Type 0 where
    end : Members
    member : String → Value → Members → Members

-- `m[key]`, and whether it is there.
unfoldable pub member_at : String → Members → Option Value
member_at key end = none
member_at key (member k v ms) = let rest = member_at key ms in if str_eq k key then some v else rest

pub data MalformedReason : Type 0 where
  act_not_object nested_act_not_object iss_not_string sub_not_string : MalformedReason

pub record DelegatedActor : Type 0 where
  pub issuer : String
  pub subject : String
  pub extra : List (String × Value)

-- `malformed_reason` is `none` for the empty string.
pub record DelegationChain : Type 0 where
  pub chain : List DelegatedActor
  pub truncated : Bool
  pub omitted : ℕ
  pub malformed : Bool
  pub malformed_reason : Option MalformedReason

abbrev pub empty_chain : DelegationChain
empty_chain = record {
  chain = [];
  truncated = false;
  omitted = 0;
  malformed = false;
  malformed_reason = none;
}

abbrev pub or_reason : Option MalformedReason → MalformedReason → Option MalformedReason
or_reason none r = some r
or_reason (some s) r = some s

unfoldable pub flag_malformed : MalformedReason → DelegationChain → DelegationChain
flag_malformed r c = record c {
  malformed = true;
  malformed_reason = or_reason c.malformed_reason r;
}

abbrev no_hops : List DelegatedActor → Bool
no_hops [] = true
no_hops (h ∷ hs) = false

-- `IsZero`; a nil chain is `none`.
unfoldable pub is_zero : Option DelegationChain → Bool
is_zero none = true
is_zero (some c) = no_hops c.chain && not c.truncated && not c.malformed

unfoldable pub as_string_map : Value → Option Members
as_string_map (obj ms) = some ms
as_string_map _ = none

abbrev is_string : Value → Bool
is_string (str s) = true
is_string _ = false

-- The members that are kept beside the parsed ones.
unfoldable pub extra_claims : Members → List (String × Value)
extra_claims end = []
extra_claims (member k v ms) =
    let rest = extra_claims ms in
    if str_eq k "act"
    then rest
    else if (str_eq k "iss" || str_eq k "sub") && is_string v
    then rest
    else (k, v) ∷ rest

-- A string member, as the zero value if it is absent or no string.
abbrev pub string_or_empty : Option Value → String
string_or_empty (some (str s)) = s
string_or_empty _ = ""

-- Whether a member is there and no string.
abbrev pub is_ill_typed : Option Value → Bool
is_ill_typed none = false
is_ill_typed (some (str s)) = false
is_ill_typed (some _) = true

-- The hop that one object of the chain gives.
unfoldable pub hop_of : Members → DelegatedActor
hop_of ms = record {
  issuer = string_or_empty (member_at "iss" ms);
  subject = string_or_empty (member_at "sub" ms);
  extra = extra_claims ms;
}

-- One hop appended, with the flags that its own claims raise.
unfoldable pub add_hop : Members → DelegationChain → DelegationChain
unfolding flag_malformed hop_of
add_hop ms c =
    let c1 = if is_ill_typed (member_at "iss" ms) then flag_malformed iss_not_string c else c in
    let c2 = if is_ill_typed (member_at "sub" ms) then flag_malformed sub_not_string c1 else c1 in
    record c2 { chain = c2.chain ++ hop_of ms ∷ [] }

-- What an object's act member says of the rest: no more, a violation, or the next object.
pub data Next : Type 0 where
  stop violation : Next
  go_on : Members → Next

next_of_map : Option Members → Next
next_of_map (some ms) = go_on ms
next_of_map none = violation

unfoldable pub next_of_value : Option Value → Next
unfolding next_of_map as_string_map
next_of_value none = stop
next_of_value (some nil) = stop
next_of_value (some v) = next_of_map (as_string_map v)

unfoldable pub next_act : Members → Next
unfolding next_of_value
next_act ms = next_of_value (member_at "act" ms)

-- `countRemainingHops`, on fuel: the count so far, then the objects.
unfoldable pub count_remaining_hops : ℕ → ℕ → Members → Option (ℕ × Bool)
count_remaining_hops zero count ms = none
count_remaining_hops (suc fuel) count ms = elim (next_act ms) [
  | stop ↦ some (count + 1, false)
  | violation ↦ some (count + 1, true)
  | go_on inner ↦ count_remaining_hops fuel (count + 1) inner
]

-- The end of the loop at the cap.
unfoldable pub truncate : DelegationChain → Option (ℕ × Bool) → Option DelegationChain
truncate c none = none
truncate c (some (dropped, bad)) =
    let c1 = record c { truncated = true; omitted = c.omitted + dropped } in
    some (if bad then flag_malformed nested_act_not_object c1 else c1)

-- The loop, with the number of hops that it may still take.
unfoldable pub parse_hops : ℕ → ℕ → Members → DelegationChain → Option DelegationChain
parse_hops fuel zero ms c = truncate c (count_remaining_hops fuel 0 ms)
parse_hops fuel (suc room) ms c = elim (next_act ms) [
  | stop ↦ some (add_hop ms c)
  | violation ↦ some (flag_malformed nested_act_not_object (add_hop ms c))
  | go_on inner ↦ parse_hops fuel room inner (add_hop ms c)
]

abbrev pub default_max_delegation_depth : ℕ
default_max_delegation_depth = 16

-- `if maxDepth <= 0 { maxDepth = DefaultMaxDelegationDepth }`.
unfoldable pub depth_cap : ℤ → ℕ
depth_cap (pos zero) = default_max_delegation_depth
depth_cap (pos (suc n)) = suc n
depth_cap (negsuc n) = default_max_delegation_depth

-- The nesting of a value, which is fuel enough.
mutual
  pub depth : Value → ℕ
  depth (obj ms) = suc (depth_members ms)
  depth nil = 0
  depth (str s) = 0
  depth (other n) = 0

  pub depth_members : Members → ℕ
  depth_members end = 0
  depth_members (member k v ms) = depth v + depth_members ms

parse_map : ℤ → Option Members → Option DelegationChain
parse_map max_depth none = some (flag_malformed act_not_object empty_chain)
parse_map max_depth (some ms) =
    parse_hops (suc (depth_members ms)) (depth_cap max_depth) ms empty_chain

-- `ParseDelegationChain`; `none` would be a loop that has not ended.
unfoldable pub parse_delegation_chain : Value → ℤ → Option DelegationChain
unfolding parse_map as_string_map
parse_delegation_chain nil max_depth = some empty_chain
parse_delegation_chain raw max_depth = parse_map max_depth (as_string_map raw)
