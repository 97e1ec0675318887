-- ===== src/Options/Power.antt =====
-- The shard counts that pass the options, and the masks that they give.
use go.Prelude.{
  ℕ, zero, suc, ◌+◌, ◌-◌, ◌*◌, ◌/◌, ◌%◌, ◌^◌, ◌≤◌, ◌<◌, ◌≡◌, ◌↔◌, refl, arith, bit_and, min,
}
use go.Prelude.{some, ltb, ltb→lt, ltb→ge, ◌⊎◌, inl, inr, Bool-cases}
use go.Prelude.Bits.{bit_and_step, bit_and-le}
use go.Prelude.{sym, ap, ◌∙◌, ℕ_discrete}
use native.Mathlib.Nat.{
  mod-lt, mod-eq_of_lt, mod-eq-sub-mod, mod_self, div-add-mod', mul-add, two-pow-succ, one-le-pow,
}
use go.Prelude.Int.{ℤ, pos, negsuc}
use go.Options.{Options, with_shards, default_shards, default_options}

bit_and_self_fuel : (n a : ℕ) → a ≤ n → bit_and a a ≡ a
bit_and_self_fuel zero zero h = refl
bit_and_self_fuel zero (suc a) h = absurd (omega arith)
bit_and_self_fuel (suc n) zero h = refl
bit_and_self_fuel (suc n) (suc a) h =
    omega (arith, bit_and_step (suc a) (suc a), bit_and_self_fuel n (suc a / 2) (omega arith))

bit_and_self : (a : ℕ) → bit_and a a ≡ a
bit_and_self a = bit_and_self_fuel a a (omega arith)

mod-mul-add : (q r m : ℕ) → r < m → (q * m + r) % m ≡ r
mod-mul-add zero r m h =
    let e : zero * m + r ≡ r = omega arith in ap (λ x. x % m) e ∙ mod-eq_of_lt h
mod-mul-add (suc q) r m h =
    let e : suc q * m + r - m ≡ q * m + r = omega arith in
    mod-eq-sub-mod {n = suc q * m + r} (omega arith) ∙ ap (λ x. x % m) e ∙ mod-mul-add q r m h

pow_pos : (k : ℕ) → 0 < 2 ^ k
pow_pos k = one-le-pow k 2 (omega arith)

-- The lowest digit and the others, of a remainder by an even number.
mod-double : (a p : ℕ) → 0 < p → a % (p + p) ≡ a / 2 % p * 2 + a % 2
mod-double a p h =
    let q = a / 2 / p in
    let r = a / 2 % p in
    let small : r < p = mod-lt (a / 2) h in
    let parts : q * p + r ≡ a / 2 = div-add-mod' (a / 2) p in
    let e : a ≡ q * (p + p) + (r * 2 + a % 2) = omega (arith, mul-add q p p) in
    ap (λ x. x % (p + p)) e ∙ mod-mul-add q (r * 2 + a % 2) (p + p) (omega arith)

bit_and-zero : (a : ℕ) → bit_and a 0 ≡ 0
bit_and-zero a = omega (arith, bit_and-le a 0)

-- A mask of `k` ones takes the remainder by 2^k.
pub bit_and_mask : (k a : ℕ) → bit_and a (2 ^ k - 1) ≡ a % 2 ^ k
bit_and_mask zero a = bit_and-zero a ∙ omega arith
bit_and_mask (suc k) a =
    let double = two-pow-succ k in
    let low : (2 ^ suc k - 1) / 2 ≡ 2 ^ k - 1 = omega (arith, double, pow_pos k) in
    let odd : (2 ^ suc k - 1) % 2 ≡ 1 = omega (arith, double, pow_pos k) in
    bit_and_step a (2 ^ suc k - 1)
    ∙ omega (arith, ap (λ x. bit_and (a / 2) x) low, odd, bit_and_mask k (a / 2))
    ∙ sym (mod-double a (2 ^ k) (pow_pos k))
    ∙ ap (λ x. a % x) (sym double)

pub power_of_bit_and :
    (n count : ℕ)
    → count ≤ n
    → 0 < count
    → bit_and count (count - 1) ≡ 0
    → (k : ℕ) × (count ≡ 2 ^ k)
power_of_bit_and zero count le p h = absurd (omega arith)
power_of_bit_and (suc n) count le p h = elim (ℕ_discrete (count % 2) 0) [
  | yes even ↦
      let low : (count - 1) / 2 ≡ count / 2 - 1 = omega arith in
      let (k, e) =
        power_of_bit_and n (count / 2) (omega arith) (omega arith)
          (omega (arith, bit_and_step count (count - 1), ap (λ x. bit_and (count / 2) x) low)) in
      (suc k, omega (arith, e, two-pow-succ k))
  | no odd ↦
      let low : (count - 1) / 2 ≡ count / 2 = omega arith in
      (
        0,
        omega (
          arith,
          bit_and_step count (count - 1),
          ap (λ x. bit_and (count / 2) x) low,
          bit_and_self (count / 2),
        ),
      )
]

pub bit_and_power : (k : ℕ) → bit_and (2 ^ k) (2 ^ k - 1) ≡ 0
bit_and_power k = bit_and_mask k (2 ^ k) ∙ mod_self (2 ^ k)

accepted_count :
    (count : ℕ) (o o' : Options)
    → with_shards (pos count) o ≡ some o'
    → (0 < count) × (bit_and count (count - 1) ≡ 0) × (o' ≡ record o { shards = count })
unfolding with_shards
accepted_count count o o' h = (ground arith, ground arith, ground arith)

accepted_power :
    (count : ℤ) (o o' : Options)
    → with_shards count o ≡ some o'
    → (k : ℕ) × (count ≡ pos (2 ^ k)) × (o' ≡ record o { shards = 2 ^ k })
accepted_power (negsuc n) o o' h = unfold with_shards in cc
accepted_power (pos count) o o' h =
    let (p, b, e) = accepted_count count o o' h in
    let (k, power) = power_of_bit_and count count (omega arith) p b in
    (k, ap pos power, e ∙ ap (λ c. record o { shards = c }) power)

accept_power :
    (k : ℕ) (o : Options) → with_shards (pos (2 ^ k)) o ≡ some (record o { shards = 2 ^ k })
unfolding with_shards
accept_power k o = ground (arith, pow_pos k, bit_and_power k)

-- `WithShards` accepts exactly the powers of two, and sets that count and nothing else.
pub with_shards_iff :
    (count : ℤ) (o o' : Options)
    → (with_shards count o ≡ some o')
      ↔ ((k : ℕ) × (count ≡ pos (2 ^ k)) × (o' ≡ record o { shards = 2 ^ k }))
with_shards_iff count o o' = (
  accepted_power count o o',
  λ (k, power, e). ap (λ c. with_shards c o) power ∙ accept_power k o ∙ ap some (sym e),
)

-- The loop of `defaultOptions` ends with a power of two that is no less than the processors, and
-- with the smallest one.
default_shards_lem :
    (fuel i procs : ℕ)
    → procs ≤ fuel + 2 ^ i
    → (i ≡ 0) ⊎ (2 ^ i < procs + procs)
    → (k : ℕ) × (default_shards fuel (2 ^ i) procs ≡ 2 ^ k)
      × (procs ≤ 2 ^ k)
      × ((k ≡ 0) ⊎ (2 ^ k < procs + procs))
unfolding default_shards
default_shards_lem zero i procs h m = (i, refl, omega arith, m)
default_shards_lem (suc fuel) i procs h m = elim (Bool-cases (ltb (2 ^ i) procs)) [
  | inl more ↦
      let small = ltb→lt _ _ more in
      let double = two-pow-succ i in
      let (k, e, le, min) =
        default_shards_lem fuel (suc i) procs (omega (arith, double, pow_pos i))
          (inr (omega (arith, double))) in
      let same : 2 ^ i * 2 ≡ 2 ^ suc i = omega (arith, double) in
      (k, rw more (ap (λ s. default_shards fuel s procs) same ∙ e), le, min)
  | inr done ↦ (i, rw done, ltb→ge _ _ done, m)
]

-- The default number of shards is a power of two, no less than the number of processors, and below
-- twice that number unless it is one.
pub default_options_shards :
    (procs : ℕ)
    → (k : ℕ) × ((default_options procs).shards ≡ 2 ^ k)
      × (procs ≤ 2 ^ k)
      × ((k ≡ 0) ⊎ (2 ^ k < procs + procs))
unfolding default_options
default_options_shards procs = default_shards_lem procs 0 procs (omega arith) (inl refl)
