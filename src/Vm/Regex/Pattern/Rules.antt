-- ===== src/Vm/Regex/Pattern/Rules.antt =====
-- crates/js-vm/src/regex.rs: quantifiers, escapes, classes and names keep the parser well formed.
use mathlib.Core.Option
use justscript.Prelude.{
  ℕ, zero, suc, ◌-◌, ◌≤◌, inl, inr, Bool, true, false, Option, none, some, arith, if◌then◌else◌,
  Bool-cases, ◌==◌, nat_eq, list_eq,
}
use justscript.Vm.Regex.{Ast, Asts, nil, cons}
use justscript.Vm.Regex.Repeat.{push_copies, from_parts, optional_parts, expand_repeat}
use justscript.Vm.Regex.Compile.Targets.{GroupsAtMost, AllGroupsAtMost}
use justscript.Vm.Regex.Pattern.{
  Parser, next_is, skip, skip_digits, is_ascii_digit, text_between, parse_usize, greediness,
  braces_most, braces_close, try_braces, repeated, quantify,
}
use justscript.Vm.Regex.Pattern.Reads.{
  greediness-Reads, IsParser, Reads, Reads-trans, skip-Reads, skip_while-Reads,
}

-- What a rule leaves: a later parser, which has counted the groups of the pattern read.
abbrev pub Reading : Parser → Ast × Parser → Type 0
Reading p (a, p') = Reads p p' × GroupsAtMost p'.group_count a

mutual
  unfolding GroupsAtMost

  pub GroupsAtMost-weaken : (m n : ℕ) (a : Ast) → m ≤ n → GroupsAtMost m a → GroupsAtMost n a
  GroupsAtMost-weaken m n (Ast.group x k) h g =
      (omega (arith, g.0), GroupsAtMost-weaken m n x h g.1)
  GroupsAtMost-weaken m n (Ast.concat xs) h g = AllGroupsAtMost-weaken m n xs h g
  GroupsAtMost-weaken m n (Ast.alt xs) h g = AllGroupsAtMost-weaken m n xs h g
  GroupsAtMost-weaken m n (Ast.star x _) h g = GroupsAtMost-weaken m n x h g
  GroupsAtMost-weaken m n (Ast.plus x _) h g = GroupsAtMost-weaken m n x h g
  GroupsAtMost-weaken m n (Ast.quest x _) h g = GroupsAtMost-weaken m n x h g
  GroupsAtMost-weaken m n (Ast.look x _ _) h g = GroupsAtMost-weaken m n x h g
  GroupsAtMost-weaken m n _ h g = tt

  pub AllGroupsAtMost-weaken :
      (m n : ℕ) (xs : Asts) → m ≤ n → AllGroupsAtMost m xs → AllGroupsAtMost n xs
  AllGroupsAtMost-weaken m n nil h g = tt
  AllGroupsAtMost-weaken m n (cons x xs) h g =
      (GroupsAtMost-weaken m n x h g.0, AllGroupsAtMost-weaken m n xs h g.1)

module _ (groups : ℕ) where
  push_copies-Groups :
      (n : ℕ) (a : Ast) (later : Asts)
      → GroupsAtMost groups a
      → AllGroupsAtMost groups later
      → AllGroupsAtMost groups (push_copies n a later)
  unfolding push_copies GroupsAtMost
  push_copies-Groups zero a later h k = k
  push_copies-Groups (suc n) a later h k = (h, push_copies-Groups n a later h k)

  pub from_parts-Groups :
      (parts : Asts) → AllGroupsAtMost groups parts → GroupsAtMost groups (from_parts parts)
  unfolding from_parts GroupsAtMost
  from_parts-Groups nil h = tt
  from_parts-Groups (cons part nil) h = h.0
  from_parts-Groups (cons a (cons b parts)) h = h

  optional_parts-Groups :
      (a : Ast) (least : ℕ) (most : Option ℕ) (greedy : Bool)
      → GroupsAtMost groups a
      → AllGroupsAtMost groups (optional_parts a least most greedy)
  unfolding optional_parts GroupsAtMost
  optional_parts-Groups a least none greedy h = (h, tt)
  optional_parts-Groups a least (some most) greedy h =
      push_copies-Groups (most - least) (Ast.quest a greedy) nil h tt

  expand_repeat-Groups :
      (a : Ast) (least : ℕ) (most : Option ℕ) (greedy : Bool)
      → GroupsAtMost groups a
      → GroupsAtMost groups (expand_repeat a least most greedy)
  unfolding expand_repeat
  expand_repeat-Groups a least most greedy h =
      from_parts-Groups _
        (push_copies-Groups least a _ h (optional_parts-Groups a least most greedy h))

-- `P` of the value, where there is one.
abbrev Given {ℓ} : {A : Type ℓ} → (A → Type 0) → Option A → Type 0
Given P none = Unit
Given P (some a) = P a

bind-Given {ℓ κ} :
    {A : Type ℓ} {B : Type κ} (Q : B → Type 0) (o : Option A) (f : A → Option B)
    → ((a : A) → Given Q (f a))
    → Given Q (Option.bind o f)
unfolding Option.bind
bind-Given Q none f h = tt
bind-Given Q (some a) f h = h a

pub skip_digits-Reads : (p : Parser) → IsParser p → Reads p (skip_digits p)
skip_digits-Reads p h = skip_while-Reads is_ascii_digit _ p h

abbrev Later {ℓ} : {A : Type ℓ} → Parser → A × Parser → Type 0
Later p (a, p') = Reads p p'

braces_close-Reads :
    (start : Parser) (least : ℕ) (r : Option ℕ × Parser)
    → Later start r
    → Given (Later start) (braces_close least r)
unfolding braces_close
braces_close-Reads start least (most, p) h = elim (Bool-cases (next_is b'}' p)) [
  | inl e ↦ rw e (Reads-trans start p _ h (skip-Reads p h.valid))
  | inr e ↦ rw e tt
]

-- A property of both branches.
pub if-both {ℓ} :
    {A : Type ℓ} (P : A → Type 0) (b : Bool) (x y : A) → P x → P y → P (if b then x else y)
if-both P true x y h k = h
if-both P false x y h k = k

map-Given {ℓ} :
    {A : Type ℓ} (Q : Option A × Parser → Type 0) (o : Option A) (p : Parser)
    → ((a : Option A) → Q (a, p))
    → Given Q (Option.map (λ a. (some a, p)) o)
map-Given Q none p h = tt
map-Given Q (some a) p h = h (some a)

braces_most-Reads :
    (start : Parser) (least : ℕ) (p : Parser)
    → Reads start p
    → Given (Later start) (braces_most least p)
unfolding braces_most
braces_most-Reads start least p h =
    let s = skip p in
    let ended = skip_digits s in
    let from_s = skip-Reads p h.valid in
    let to_end =
      Reads-trans start p ended h
        (Reads-trans p s ended from_s (skip_digits-Reads s from_s.valid)) in
    if-both (Given (Later start)) (next_is b',' p) _ (some (some least, p))
      (if-both (Given (Later start)) (s.pos == ended.pos) (some (none, ended)) _ to_end
        (map-Given (Later start) (parse_usize (text_between s ended)) ended (λ _. to_end)))
      h

bind-Given-some {ℓ κ} :
    {A : Type ℓ} {B : Type κ} (P : A → Type 0) (Q : B → Type 0) (o : Option A) (f : A → Option B)
    → Given P o
    → ((a : A) → P a → Given Q (f a))
    → Given Q (Option.bind o f)
unfolding Option.bind
bind-Given-some P Q none f g h = tt
bind-Given-some P Q (some a) f g h = h a g

Given-weaken {ℓ} :
    {A : Type ℓ} (P Q : A → Type 0) (o : Option A) → ((a : A) → P a → Q a) → Given P o → Given Q o
Given-weaken P Q none f h = tt
Given-weaken P Q (some a) f h = f a h

try_braces-Reads : (p : Parser) → IsParser p → Given (Later p) (try_braces p)
unfolding try_braces
try_braces-Reads p h =
    let ended = skip_digits p in
    if-both (Given (Later p)) (ended.pos == p.pos) none _ tt (
      bind-Given (Later p) (parse_usize (text_between p ended)) _ λ least.
        bind-Given-some (Later p) (Later p) (braces_most least ended) (braces_close least)
          (braces_most-Reads p least ended (skip_digits-Reads p h)) (braces_close-Reads p least))

repeated-Reading :
    (start : Parser) (atom : Ast) (p : Parser) (o : Option ((ℕ × Option ℕ) × Parser))
    → Reading start (atom, p)
    → Given (Later p) o
    → Reading start (repeated atom p o)
unfolding repeated
repeated-Reading start atom p none h k = h
repeated-Reading start atom p (some ((least, most), ended)) h k =
    let reads = Reads-trans p ended _ k (greediness-Reads ended k.valid) in
    (
      Reads-trans start p _ h.0 reads,
      expand_repeat-Groups _ atom least most (greediness ended).0
          (GroupsAtMost-weaken _ _ atom reads.counted h.1),
    )

-- A quantifier leaves the parser as the atom did, or further on.
pub quantify-Reading :
    (start : Parser) (atom : Ast) (p : Parser)
    → Reading start (atom, p)
    → Reading start (quantify atom p)
unfolding quantify GroupsAtMost
quantify-Reading start atom p (h, g) =
    let one = skip-Reads p h.valid in
    let reads = Reads-trans p (skip p) _ one (greediness-Reads (skip p) one.valid) in
    let after = Reads-trans start p _ h reads in
    let more = GroupsAtMost-weaken _ _ atom reads.counted g in
    if-both (Reading start) (next_is b'*' p) _ _ (after, more)
      (if-both (Reading start) (next_is b'+' p) _ _ (after, more)
        (if-both (Reading start) (next_is b'?' p) _ _ (after, more)
          (if-both (Reading start) (next_is b'{' p) _ (atom, p)
            (repeated-Reading start atom p (try_braces (skip p)) (h, g)
              (Given-weaken (Later (skip p)) (Later p) (try_braces (skip p))
                (λ r k. Reads-trans p (skip p) _ one k) (try_braces-Reads (skip p) one.valid)))
            (h, g))))
