-- ===== src/Router/Acl/Order.antt =====
-- The first rule that matches decides, and the rule that is added is the last.
use netforge.Net.{Net}
use netforge.Pdu.{Ipv4Packet}
use netforge.Prelude.{
  String, ◌≡◌, refl, true, ◌&&◌, not, List, [], ◌∷◌, ◌++◌, arith, ◌==◌, string_eq, any, Bool-cases,
  inl, inr, if◌then◌else◌,
}
use netforge.Prelude.GoMap.{get, get-put}
use text.Mathlib.TextEquality.{eq_iff}
use netforge.Router.Acl.{
  AclRule, Acls, rules_of, add_acl_rule, rule_matches, first_match, evaluate_rules, evaluate_acl,
}

module _ {B : Type 0} (net : Net) (ip : Ipv4Packet B) where
  first_match-append :
      (rules : List AclRule) (rule : AclRule)
      → first_match net ip (rules ++ rule ∷ []) ≡ (
          if any (rule_matches net ip) rules
          then first_match net ip rules
          else rule_matches net ip rule && rule.action == "permit")
  unfolding first_match
  first_match-append [] rule = ground arith
  first_match-append (r ∷ rules) rule = ground (arith, first_match-append rules rule)

  evaluate_rules-append :
      (rules : List AclRule) (rule : AclRule)
      → evaluate_rules net ip (rules ++ rule ∷ []) ≡ first_match net ip (rules ++ rule ∷ [])
  evaluate_rules-append [] rule = refl
  evaluate_rules-append (r ∷ rules) rule = refl

  evaluate_rules-any :
      (rules : List AclRule)
      → any (rule_matches net ip) rules ≡ true
      → evaluate_rules net ip rules ≡ first_match net ip rules
  evaluate_rules-any [] h = ground arith
  evaluate_rules-any (r ∷ rules) h = refl

-- A rule that AddACLRule adds to a list leaves each packet's verdict that an earlier rule of the
-- list decides; the other packets are permitted when the rule permits them and else denied, also in
-- a list that was empty and permitted them. The other lists keep their verdicts. The verdict is that of
-- a list whose name is not empty.
pub evaluate_acl-add_acl_rule :
    {B : Type 0} (net : Net) (acls : Acls) (acl_name other : String) (rule : AclRule)
    (ip : Ipv4Packet B)
    → not (other == "") ≡ true
    → evaluate_acl net (add_acl_rule acls acl_name rule) other ip ≡ (
        if acl_name == other && not (any (rule_matches net ip) (rules_of (get acls other)))
        then rule_matches net ip rule && rule.action == "permit"
        else evaluate_acl net acls other ip)
unfolding evaluate_acl add_acl_rule
evaluate_acl-add_acl_rule net acls acl_name other rule ip named =
    let rules = rules_of (get acls other) in
    let old = get-put acls acl_name other (rules_of (get acls acl_name) ++ rule ∷ []) in
    elim (Bool-cases (acl_name == other)) [
      | inl same ↦ ground (
        arith,
        old,
        eq_iff acl_name other,
        evaluate_rules-append net ip rules rule,
        first_match-append net ip rules rule,
        evaluate_rules-any net ip rules,
      )
      | inr apart ↦ ground (arith, old)
    ]
