-- ===== src/Delegation/Tests.antt =====
-- A chain of two objects under a cap of one.
use toolhive_core.Base.{
  ◌-◌, ◌≤◌, ◌≡◌, refl, true, false, [], ◌∷◌, ◌++◌, some, inl, ltb, length, take,
}
use toolhive_core.Base.Int.{pos}
use toolhive_core.Delegation.{
  obj, str, other, Members, end, member, member_at, DelegationChain, parse_delegation_chain,
  depth_cap, add_hop, next_act, count_remaining_hops, truncate, parse_hops, iss_not_string,
  flag_malformed,
}
use toolhive_core.Delegation.Nesting.{Nested, innermost, around}
use toolhive_core.Delegation.Chain.{
  IsChain, all_claim_faults, act_fault, parse_delegation_chain_lem, parse_delegation_chain_total,
}

abbrev inner : Members
inner = member "sub" (str "service") end

abbrev outer : Members
outer = member "iss" (other 7) (member "act" (obj inner) (member "sub" (str "agent") end))

outer-Nested : Nested outer (outer ∷ inner ∷ []) false
unfolding member_at
outer-Nested = around refl (innermost (inl refl))

parse_test :
    (c : DelegationChain) × (parse_delegation_chain (obj outer) (pos 1) ≡ some c)
    × (c.malformed_reason ≡ some iss_not_string)
    × (c.omitted ≡ 1)
    × (c.truncated ≡ true)
unfolding parse_delegation_chain parse_hops add_hop next_act count_remaining_hops truncate member_at
    depth_cap flag_malformed
parse_test = (_, refl, refl, refl, refl)

parse_delegation_chain_lem_example :
    (c : DelegationChain) × (parse_delegation_chain (obj outer) (pos 1) ≡ some c)
    × IsChain
        (take (depth_cap (pos 1)) (outer ∷ inner ∷ []))
        (all_claim_faults (take (depth_cap (pos 1)) (outer ∷ inner ∷ [])) ++ act_fault false)
        (ltb (depth_cap (pos 1)) (length (outer ∷ inner ∷ [])))
        (length (outer ∷ inner ∷ []) - depth_cap (pos 1))
        c
parse_delegation_chain_lem_example =
    parse_delegation_chain_lem (pos 1) outer (outer ∷ inner ∷ []) false outer-Nested

parse_delegation_chain_total_example :
    (c : DelegationChain) × (parse_delegation_chain (obj outer) (pos 1) ≡ some c)
    × (length c.chain ≤ depth_cap (pos 1))
parse_delegation_chain_total_example = parse_delegation_chain_total (obj outer) (pos 1)
