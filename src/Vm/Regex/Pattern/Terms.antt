-- ===== src/Vm/Regex/Pattern/Terms.antt =====
-- crates/js-vm/src/regex.rs: atoms, concatenations and alternatives, and what a pattern is compiled to.
use justscript.Prelude.{
  ℕ, zero, suc, ◌+◌, ◌<◌, ◌≡◌, sym, ap, ◌∙◌, not, some, arith, ◌==◌, length, nat_eq, list_eq,
}
use justscript.Vm.Regex.{Ast, Asts, nil, cons}
use justscript.Vm.Regex.Compile.Targets.{GroupsAtMost, AllGroupsAtMost}
use justscript.Vm.Regex.Pattern.{Parser, Rule, peek, next_is, bump, skip}
use justscript.Vm.Regex.Pattern.Grammar.{
  atom_of, parse_atom, parse_quant, ends_concat, concat_parts, rounds_of, parse_concat, more_alts,
  alt_of, alternatives,
}
use justscript.Vm.Regex.Pattern.Reads.{
  Ends, IsParser, Reads, Reads-refl, Reads-trans, rounds_left, bind-Ends, if-Ends, on_char-Ends,
  Ends-weaken, skip-Reads, skip-some, next_is-peek,
}
use justscript.Vm.Regex.Pattern.Rules.{
  Reading, from_parts-Groups, quantify-Reading, GroupsAtMost-weaken,
}
use justscript.Vm.Regex.Pattern.Leaves.{
  bump-Reads, bump-skip, bump-peek, parse_class-Reading, parse_escape-Reading,
}
use justscript.Vm.Regex.Pattern.Nested.{Works, parse_group-Reading}

-- A rule for several patterns has read on, and counted the groups of them all.
abbrev ReadingAll : Parser → Asts × Parser → Type 0
ReadingAll p (parts, p') = Reads p p' × AllGroupsAtMost p'.group_count parts

-- The reading went past the first character.
abbrev Past : Parser → Ast × Parser → Type 0
Past p (a, p') = Reading p (a, p') × (p.pos < p'.pos)

module _ (inner : Rule) (depth : ℕ) (works : Works depth inner) where
  -- A parenthesis has been read before `inner` is called, so one level is spent on it.
  abbrev Outside : Parser → Type 0
  Outside p = length p.chars < p.pos + suc depth

  atom_of-Reading :
      (c : ℕ) (p : Parser)
      → IsParser p
      → length p.chars < p.pos + depth
      → Ends (Reading p) (atom_of inner c p)
  unfolding atom_of GroupsAtMost
  atom_of-Reading c p h room =
      let stay = Reads-refl p h in
      if-Ends (Reading p) (c == b'.') _ _ (λ _. (stay, tt))
        λ _.
          if-Ends (Reading p) (c == b'^') _ _ (λ _. (stay, tt))
            λ _.
              if-Ends (Reading p) (c == b'$') _ _ (λ _. (stay, tt))
                λ _.
                  if-Ends (Reading p) (c == b'(') _ _
                    (λ _. parse_group-Reading inner depth works p p stay room)
                    λ _.
                      if-Ends (Reading p) (c == b'[') _ _ (λ _. parse_class-Reading p h)
                        λ _.
                          if-Ends (Reading p) (c == b'\\') _ _ (λ _. parse_escape-Reading p h)
                            (λ _. (stay, tt))

  bump_lt : (p : Parser) (c : ℕ) → (bump p).0 ≡ some c → (bump p).1.pos ≡ p.pos + 1
  bump_lt p c e = ap (λ q. q.pos) (bump-skip p) ∙ skip-some p c (sym (bump-peek p) ∙ e)

  parse_quant-Past : (p : Parser) → IsParser p → Outside p → Ends (Past p) (parse_quant inner p)
  unfolding parse_quant parse_atom
  parse_quant-Past p h room =
      let one = bump-Reads p h in
      bind-Ends (Past p) (Past p) (parse_atom inner p) _
        (on_char-Ends (Past p) (bump p).0 _ _ (λ _. tt)
          λ c e.
            let next = bump_lt p c e in
            Ends-weaken (Reading (bump p).1) (Past p) (atom_of inner c (bump p).1)
              (λ (a, q) (k, g). ((Reads-trans p (bump p).1 q one k, g), omega (arith, k.forward)))
              (atom_of-Reading c (bump p).1 one.valid (omega (arith, ap length one.same))))
        λ (a, q) (k, lt). (
          quantify-Reading p a q k,
          omega (arith, (quantify-Reading q a q (Reads-refl q k.0.valid, k.1)).0.forward),
        )

  concat_parts-ReadingAll :
      (rounds : ℕ) (p : Parser)
      → IsParser p
      → Outside p
      → length p.chars < p.pos + rounds
      → Ends (ReadingAll p) (concat_parts inner rounds p)
  unfolding concat_parts GroupsAtMost
  concat_parts-ReadingAll zero p h room fuel = absurd (omega (arith, h.inside))
  concat_parts-ReadingAll (suc rounds) p h room fuel =
      if-Ends (ReadingAll p) (ends_concat (peek p)) _ _ (λ _. (Reads-refl p h, tt))
        λ _.
          bind-Ends (Past p) (ReadingAll p) (parse_quant inner p) _ (parse_quant-Past p h room)
            λ (a, q) ((k, g), lt).
              bind-Ends (ReadingAll q) (ReadingAll p) (concat_parts inner rounds q) _
                (concat_parts-ReadingAll rounds q k.valid (omega (arith, ap length k.same))
                  (rounds_left p q rounds k lt fuel))
                λ (parts, r) (l, gs).
                  (Reads-trans p q r k l, (GroupsAtMost-weaken _ _ a l.counted g, gs))

  parse_concat-Reading :
      (p : Parser) → IsParser p → Outside p → Ends (Reading p) (parse_concat inner p)
  unfolding parse_concat
  parse_concat-Reading p h room =
      bind-Ends (ReadingAll p) (Reading p) (concat_parts inner (rounds_of p) p) _
        (concat_parts-ReadingAll (rounds_of p) p h room (omega arith))
        λ (parts, q) (k, gs). (k, from_parts-Groups _ parts gs)

  more_alts-ReadingAll :
      (rounds : ℕ) (p : Parser)
      → IsParser p
      → Outside p
      → length p.chars < p.pos + rounds
      → Ends (ReadingAll p) (more_alts inner rounds p)
  unfolding more_alts GroupsAtMost
  more_alts-ReadingAll zero p h room fuel = absurd (omega (arith, h.inside))
  more_alts-ReadingAll (suc rounds) p h room fuel =
      if-Ends (ReadingAll p) (not (next_is b'|' p)) _ _ (λ _. (Reads-refl p h, tt))
        λ e.
          let one = skip-Reads p h in
          let (d, bar) = next_is-peek b'|' (peek p) (ground arith) in
          let past = skip-some p d bar in
          bind-Ends (Reading (skip p)) (ReadingAll p) (parse_concat inner (skip p)) _
            (parse_concat-Reading (skip p) one.valid (omega (arith, ap length one.same)))
            λ (a, q) (k, g).
              let reads = Reads-trans p (skip p) q one k in
              bind-Ends (ReadingAll q) (ReadingAll p) (more_alts inner rounds q) _
                (more_alts-ReadingAll rounds q k.valid (omega (arith, ap length reads.same))
                  (rounds_left p q rounds reads (omega (arith, k.forward)) fuel))
                λ (parts, r) (l, gs).
                  (Reads-trans p q r reads l, (GroupsAtMost-weaken _ _ a l.counted g, gs))

  alt_of-Groups :
      (groups : ℕ) (a : Ast) (parts : Asts)
      → GroupsAtMost groups a
      → AllGroupsAtMost groups parts
      → GroupsAtMost groups (alt_of a parts)
  unfolding GroupsAtMost
  alt_of-Groups groups a nil g gs = g
  alt_of-Groups groups a (cons b parts) g gs = (g, gs)

  pub alternatives-Reading :
      (p : Parser) → IsParser p → Outside p → Ends (Reading p) (alternatives inner p)
  unfolding alternatives
  alternatives-Reading p h room =
      bind-Ends (Reading p) (Reading p) (parse_concat inner p) _ (parse_concat-Reading p h room)
        λ (a, q) (k, g).
          bind-Ends (ReadingAll q) (Reading p) (more_alts inner (rounds_of p) q) _
            (more_alts-ReadingAll (rounds_of p) q k.valid (omega (arith, ap length k.same))
              (omega (arith, ap length k.same)))
            λ (parts, r) (l, gs). (
              Reads-trans p q r k l,
              alt_of-Groups _ a parts (GroupsAtMost-weaken _ _ a l.counted g) gs,
            )
