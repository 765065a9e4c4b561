-- ===== src/Vm/Regex/Pattern/Nested.antt =====
-- crates/js-vm/src/regex.rs: the rules that recur, and what a whole pattern is compiled to.
use justscript.Prelude.{
  ℕ, ◌+◌, ◌≤◌, ◌<◌, refl, ap, Bool, true, false, ◌&&◌, List, [], ◌∷◌, ◌++◌, arith, length, All,
  Text,
}
use justscript.Vm.Regex.{Ast}
use justscript.Vm.Regex.Compile.Targets.{GroupsAtMost}
use justscript.Vm.Regex.Pattern.{is_char, next_is, Parser, Parsed, Rule, skip, peek2}
use justscript.Vm.Regex.Pattern.Groups.{
  expect_close, closed, numbered_group, read_group_name, add_name, named_group, prefixed_group,
  parse_group,
}
use justscript.Vm.Regex.Pattern.Reads.{
  Ends, NameAtMost, IsParser, Reads, Reads-trans, bind-Ends, if-Ends, Ends-weaken, skip-Reads,
}
use justscript.Vm.Regex.Pattern.Rules.{Reading, GroupsAtMost-weaken}
use justscript.Vm.Regex.Pattern.Leaves.{Later, expect_close-Reads, read_group_name-Reads}

-- A rule that reads from every parser with fewer than `depth` characters left.
abbrev pub Works : ℕ → Rule → Type 0
Works depth rule =
    (p : Parser) → IsParser p → length p.chars < p.pos + depth → Ends (Reading p) (rule p)

names-weaken :
    (m n : ℕ) (names : List (Text × ℕ))
    → m ≤ n
    → All (NameAtMost m) names
    → All (NameAtMost n) names
names-weaken m n [] h k = tt
names-weaken m n ((name, num) ∷ names) h k = (omega (arith, k.0), names-weaken m n names h k.1)

names-append :
    (n : ℕ) (names : List (Text × ℕ)) (x : Text × ℕ)
    → All (NameAtMost n) names
    → NameAtMost n x
    → All (NameAtMost n) (names ++ x ∷ [])
names-append n [] x h k = (k, tt)
names-append n (y ∷ names) x h k = (h.0, names-append n names x h.1 k)

Reading-after :
    (start p : Parser) (r : Parsed (Ast × Parser))
    → Reads start p
    → Ends (Reading p) r
    → Ends (Reading start) r
Reading-after start p r h =
    Ends-weaken (Reading p) (Reading start) r (λ (a, q) (k, g). (Reads-trans start p q h k, g))

module _ (inner : Rule) (depth : ℕ) (works : Works depth inner) where
  abbrev Room : Parser → Type 0
  Room p = length p.chars < p.pos + depth

  Room-later : (p q : Parser) → Reads p q → Room p → Room q
  Room-later p q h room = omega (arith, ap length h.same, h.forward)

  closed-Reading :
      (build : Ast → Ast) (start p : Parser)
      → Reads start p
      → Room p
      → ((groups : ℕ) (a : Ast)
          → p.group_count ≤ groups
          → GroupsAtMost groups a
          → GroupsAtMost groups (build a))
      → Ends (Reading start) (closed inner build p)
  unfolding closed
  closed-Reading build start p h room keeps =
      bind-Ends (Reading p) (Reading start) (inner p) _ (works p h.valid room) λ (a, q) (k, g).
        bind-Ends (Reads q) (Reading start) (expect_close q) _ (expect_close-Reads q k.valid) λ r l.
          (
            Reads-trans start p r h (Reads-trans p q r k l),
            keeps _ a (omega (arith, k.counted, l.counted)) (GroupsAtMost-weaken _ _ a l.counted g),
          )

  numbered : Parser → Parser
  numbered p = record p { group_count = p.group_count + 1 }

  numbered-Reads : (p : Parser) → IsParser p → Reads p (numbered p)
  unfolding numbered
  numbered-Reads p h = record {
    same = refl;
    forward = omega arith;
    counted = omega arith;
    valid = record {
      inside = h.inside;
      named = names-weaken p.group_count _ p.names (omega arith) h.named;
    };
  }

  numbered_group-Reading :
      (start p : Parser) → Reads start p → Room p → Ends (Reading start) (numbered_group inner p)
  unfolding numbered_group numbered GroupsAtMost
  numbered_group-Reading start p h room =
      closed-Reading _ start (numbered p) (Reads-trans start p _ h (numbered-Reads p h.valid)) room
        λ groups a le g. (le, g)

  add_name-Reads : (name : Text) (p : Parser) → IsParser p → Reads p (add_name name p)
  add_name-Reads name p h = record {
    same = refl;
    forward = omega arith;
    counted = omega arith;
    valid = record {
      inside = h.inside;
      named =
          names-append _ p.names (name, p.group_count + 1)
            (names-weaken p.group_count _ p.names (omega arith) h.named) (omega arith);
    };
  }

  named_group-Reading :
      (start p : Parser) → Reads start p → Room p → Ends (Reading start) (named_group inner p)
  unfolding named_group GroupsAtMost
  named_group-Reading start p h room =
      bind-Ends (Later p) (Reading start) (read_group_name p) _ (read_group_name-Reads p h.valid)
        λ (name, q) k.
          let reads = Reads-trans p q (add_name name q) k (add_name-Reads name q k.valid) in
          closed-Reading _ start (add_name name q) (Reads-trans start p _ h reads)
            (Room-later p (add_name name q) reads room) λ groups a le g. (le, g)

  prefixed_group-Reading :
      (start p : Parser) → Reads start p → Room p → Ends (Reading start) (prefixed_group inner p)
  unfolding prefixed_group GroupsAtMost
  prefixed_group-Reading start p h room =
      let one = skip-Reads p h.valid in
      let two = Reads-trans p (skip p) (skip (skip p)) one (skip-Reads (skip p) one.valid) in
      let at_one = Reads-trans start p (skip p) h one in
      let at_two = Reads-trans start p (skip (skip p)) h two in
      let room₁ = Room-later p (skip p) one room in
      let room₂ = Room-later p (skip (skip p)) two room in
      let plain : (build : Ast → Ast)
          → ((n : ℕ) (a : Ast) → GroupsAtMost n a → GroupsAtMost n (build a))
          → Ends (Reading start) (closed inner build (skip p)) =
        λ build keeps. closed-Reading build start (skip p) at_one room₁ (λ n a _ g. keeps n a g) in
      let behind : (positive : Bool)
          → Ends (Reading start) (closed inner (λ a. Ast.look a false positive) (skip (skip p))) =
        λ positive.
          closed-Reading (λ a. Ast.look a false positive) start (skip (skip p)) at_two room₂
            (λ n a _ g. g) in
      if-Ends (Reading start) (next_is b':' p) _ _ (λ _. plain (λ a. a) (λ n a g. g))
        λ _.
          if-Ends (Reading start) (next_is b'=' p) _ _
            (λ _. plain (λ a. Ast.look a true true) (λ n a g. g))
            λ _.
              if-Ends (Reading start) (next_is b'!' p) _ _
                (λ _. plain (λ a. Ast.look a true false) (λ n a g. g))
                λ _.
                  if-Ends (Reading start) (next_is b'<' p && is_char b'=' (peek2 p)) _ _
                    (λ _. behind true)
                    λ _.
                      if-Ends (Reading start) (next_is b'<' p && is_char b'!' (peek2 p)) _ _
                        (λ _. behind false)
                        λ _.
                          if-Ends (Reading start) (next_is b'<' p) _ _
                            (λ _. named_group-Reading start (skip p) at_one room₁)
                            λ _.
                              if-Ends (Reading start) (next_is b'P' p && is_char b'<' (peek2 p)) _ _
                                (λ _. named_group-Reading start (skip (skip p)) at_two room₂)
                                (λ _. tt)

  pub parse_group-Reading :
      (start p : Parser) → Reads start p → Room p → Ends (Reading start) (parse_group inner p)
  unfolding parse_group
  parse_group-Reading start p h room =
      let one = skip-Reads p h.valid in
      if-Ends (Reading start) (next_is b'?' p) _ _
        (λ _.
          prefixed_group-Reading start (skip p) (Reads-trans start p (skip p) h one)
            (Room-later p (skip p) one room))
        (λ _. numbered_group-Reading start p h room)
