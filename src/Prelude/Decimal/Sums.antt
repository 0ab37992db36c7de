-- ===== src/Prelude/Decimal/Sums.antt =====
-- Sums of decimals do not depend on order or grouping, not even in the places that they keep.
use Prim.Native.Nat.pow
use Prim.Native.Nat.{ℕ, zero, suc, ◌+◌, ◌-◌, ◌*◌, ◌^◌, ◌≤◌, max}
use mathlib.Core.Path.{◌≡◌, refl, sym, ap, ◌∙◌}
use native.Mathlib.Omega.{arith, pow_step}
use native.Mathlib.Nat.{mul_assoc}
use dfip_v.Prelude.Int.{
  ℤ, pos, scale, ◌+ℤ◌, +ℤ_parts, eq_of_parts, pos_part, neg_part, scale_parts, +ℤ_comm, +ℤ_assoc,
}
use dfip_v.Prelude.Decimal.{Decimal, at_places, add, zero_decimal}

pow-add : (b i j : ℕ) → b ^ (i + j) ≡ b ^ i * b ^ j
pow-add b zero j = let e : 0 + j ≡ j = omega arith in rw (e, pow.zero b) (omega arith)
pow-add b (suc i) j =
    let e : suc i + j ≡ suc (i + j) = omega arith in
    rw (e, pow_step b (i + j), pow_step b i, pow-add b i j) (sym (mul_assoc b (b ^ i) (b ^ j)))

scale-scale : (a : ℤ) (j k : ℕ) → scale (scale a j) k ≡ scale a (j * k)
scale-scale a j k = eq_of_parts (scale (scale a j) k) (scale a (j * k)) (
    rw
      (
        (scale_parts (scale a j) k).0,
        (scale_parts (scale a j) k).1,
        (scale_parts a j).0,
        (scale_parts a j).1,
        (scale_parts a (j * k)).0,
        (scale_parts a (j * k)).1,
        mul_assoc (pos_part a) j k,
        mul_assoc (neg_part a) j k,
      )
      refl)

scale-add : (a b : ℤ) (k : ℕ) → scale (a +ℤ b) k ≡ scale a k +ℤ scale b k
scale-add a b k = eq_of_parts (scale (a +ℤ b) k) (scale a k +ℤ scale b k) (
    let h = +ℤ_parts a b in
    let g = +ℤ_parts (scale a k) (scale b k) in
    omega
      (arith, g, ap (λ (t : ℕ). t * k) h, scale_parts (a +ℤ b) k, scale_parts a k, scale_parts b k))

at_places-add :
    (p : ℕ) (a b : Decimal)
    → a.places ≤ p
    → b.places ≤ p
    → at_places p (add a b) ≡ at_places p a +ℤ at_places p b
unfolding at_places add
at_places-add p a b ha hb =
    let m = max a.places b.places in
    let ea : (m - a.places) + (p - m) ≡ p - a.places = omega arith in
    let eb : (m - b.places) + (p - m) ≡ p - b.places = omega arith in
    scale-add (scale a.coefficient (10 ^ (m - a.places)))
      (scale b.coefficient (10 ^ (m - b.places))) (10 ^ (p - m))
    ∙ rw
        (
          scale-scale a.coefficient (10 ^ (m - a.places)) (10 ^ (p - m)),
          scale-scale b.coefficient (10 ^ (m - b.places)) (10 ^ (p - m)),
          ← pow-add 10 (m - a.places) (p - m),
          ← pow-add 10 (m - b.places) (p - m),
          ea,
          eb,
        )
        refl

same_decimal : (a b : Decimal) → a.coefficient ≡ b.coefficient → a.places ≡ b.places → a ≡ b
same_decimal a b h k = ground arith

pub add_comm : (a b : Decimal) → add a b ≡ add b a
unfolding add
add_comm a b =
    let e : max a.places b.places ≡ max b.places a.places = omega arith in
    same_decimal (add a b) (add b a)
      (rw e (+ℤ_comm (at_places (max b.places a.places) a) (at_places (max b.places a.places) b))) e

coefficient-add :
    (a b : Decimal) (p : ℕ)
    → max a.places b.places ≡ p
    → (add a b).coefficient ≡ at_places p a +ℤ at_places p b
unfolding add
coefficient-add a b p h = rw h refl

places-add : (a b : Decimal) → (add a b).places ≡ max a.places b.places
unfolding add
places-add a b = refl

pub add_assoc : (a b c : Decimal) → add (add a b) c ≡ add a (add b c)
add_assoc a b c =
    let p = max (max a.places b.places) c.places in
    let e : max (add a b).places c.places ≡ p = rw (places-add a b) refl in
    let f : max a.places (add b c).places ≡ p = rw (places-add b c) (omega arith) in
    same_decimal (add (add a b) c) (add a (add b c))
      (rw
        (
          coefficient-add (add a b) c p e,
          coefficient-add a (add b c) p f,
          at_places-add p a b (omega arith) (omega arith),
          at_places-add p b c (omega arith) (omega arith),
        )
        (+ℤ_assoc (at_places p a) (at_places p b) (at_places p c)))
      (places-add (add a b) c ∙ e ∙ sym (places-add a (add b c) ∙ f))

pub add-zero : (a : Decimal) → add zero_decimal a ≡ a
unfolding add at_places
add-zero a =
    let p : max 0 a.places ≡ a.places = omega arith in
    let none_left : a.places - a.places ≡ 0 = omega arith in
    same_decimal (add zero_decimal a) a
      (eq_of_parts (add zero_decimal a).coefficient a.coefficient (
        rw (p, none_left, pow.zero 10)
          (omega (
            arith,
            +ℤ_parts (scale (pos 0) (10 ^ (a.places - 0))) (scale a.coefficient 1),
            scale_parts (pos 0) (10 ^ (a.places - 0)),
            scale_parts a.coefficient 1,
          ))))
      p
