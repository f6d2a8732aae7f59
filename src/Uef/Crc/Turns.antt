-- ===== src/Uef/Crc/Turns.antt =====
-- libs/uef/src/crc-16-acorn.cc: the turns of the documented loop go through the exclusive or.
use beem.Base.{
  ℕ, zero, suc, ◌-◌, ◌*◌, ◌/◌, ◌<◌, ◌≡◌, Bool-cases, inl, inr, refl, ap, sym, ◌∙◌, Bool, true,
  false, if◌then◌else◌, leb, bit_xor, xor_halves, xor_double, xor_comm, xor_zero, xor_assoc,
  xor_same, with_top, other, xor-with_top, bit_xor-lt, arith,
}
use beem.Uef.Crc.Documented.{documented_step, turns}

-- The turn with the polynomial of 17 bits, whose lowest are &1021.
abbrev carried : Bool → ℕ
carried p = if p then 0x1021 else 0

abbrev shifted : Bool → ℕ → ℕ
shifted p a = bit_xor (2 * a) (carried p)

data TopSplit (x : ℕ) : Type 0 where
  top_split : (p : Bool) (a : ℕ) → a < 32768 → x ≡ with_top 15 p a → TopSplit x

top_cases : (x : ℕ) → x < 65536 → TopSplit x
top_cases x h = elim (Bool-cases (leb 32768 x)) [
  | inl high ↦ top_split true (x - 32768) (omega arith) (ground (arith, high))
  | inr low ↦ top_split false x (ground (arith, low)) refl
]

documented_step-shifted :
    (p : Bool) (a : ℕ) → a < 32768 → documented_step (with_top 15 p a) ≡ shifted p a
unfolding documented_step
documented_step-shifted true a h =
    let top = xor-with_top 15 a 0x0810 true false h (omega arith) in
    let small = bit_xor-lt 15 a 0x0810 h (omega arith) in
    let halves = xor_halves (2 * a) 0x1021 in
    let even : 2 * a / 2 ≡ a = omega arith in
    let same = xor_same (2 * a / 2) a (0x1021 / 2) 0x0810 even refl in
    ground (arith, top, small, halves, same)
documented_step-shifted false a h = ground (arith, xor_zero 16 (2 * a) (omega (arith, h)))

-- Both words of two that are combined may be exchanged with those of two others.
xor_interchange :
    (a b c d : ℕ)
    → a < 65536
    → b < 65536
    → c < 65536
    → d < 65536
    → bit_xor (bit_xor a b) (bit_xor c d) ≡ bit_xor (bit_xor a c) (bit_xor b d)
xor_interchange a b c d ha hb hc hd =
    xor_assoc 16 a b (bit_xor c d) ha hb (bit_xor-lt 16 c d hc hd)
    ∙ ap (λ x. bit_xor a x)
        (sym (xor_assoc 16 b c d hb hc hd)
          ∙ ap (λ x. bit_xor x d) (xor_comm 16 b c hb hc)
          ∙ xor_assoc 16 c b d hc hb hd)
    ∙ sym (xor_assoc 16 a c (bit_xor b d) ha hc (bit_xor-lt 16 b d hb hd))

carried-lt : (p : Bool) → carried p < 65536
carried-lt true = omega arith
carried-lt false = omega arith

carried-other : (p q : Bool) → bit_xor (carried p) (carried q) ≡ carried (other p q)
carried-other true true = refl
carried-other true false = refl
carried-other false true = refl
carried-other false false = refl

shifted-lt : (p : Bool) (a : ℕ) → a < 32768 → shifted p a < 65536
shifted-lt p a h = bit_xor-lt 16 (2 * a) (carried p) (omega (arith, h)) (carried-lt p)

shifted-xor :
    (p q : Bool) (a b : ℕ)
    → a < 32768
    → b < 32768
    → bit_xor (shifted p a) (shifted q b) ≡ shifted (other p q) (bit_xor a b)
shifted-xor p q a b h g =
    xor_interchange (2 * a) (carried p) (2 * b) (carried q) (omega (arith, h)) (carried-lt p)
      (omega (arith, g)) (carried-lt q)
    ∙ xor_same (bit_xor (2 * a) (2 * b)) (2 * bit_xor a b) (bit_xor (carried p) (carried q))
        (carried (other p q)) (xor_double a b) (carried-other p q)

pub documented_step-lt : (x : ℕ) → documented_step x < 65536
unfolding documented_step
documented_step-lt x = omega arith

-- A turn, and so any number of them, goes through the exclusive or of two words.
documented_step-xor :
    (x y : ℕ)
    → x < 65536
    → y < 65536
    → documented_step (bit_xor x y) ≡ bit_xor (documented_step x) (documented_step y)
documented_step-xor x y h g = elim (top_cases x h) [
  | top_split p a small e ↦ elim (top_cases y g) [
    | top_split q b small' f ↦
        let both =
          xor_same x (with_top 15 p a) y (with_top 15 q b) e f
          ∙ xor-with_top 15 a b p q small small' in
        let step =
          documented_step-shifted (other p q) (bit_xor a b) (bit_xor-lt 15 a b small small') in
        let left = documented_step-shifted p a small in
        let right = documented_step-shifted q b small' in
        let sum = shifted-xor p q a b small small' in cc
  ]
]

pub turns-xor :
    (n x y : ℕ)
    → x < 65536
    → y < 65536
    → turns n documented_step (bit_xor x y)
      ≡ bit_xor (turns n documented_step x) (turns n documented_step y)
unfolding turns
turns-xor zero x y h g = refl
turns-xor (suc n) x y h g =
    ap (λ z. turns n documented_step z) (documented_step-xor x y h g)
    ∙ turns-xor n (documented_step x) (documented_step y) (documented_step-lt x)
        (documented_step-lt y)
