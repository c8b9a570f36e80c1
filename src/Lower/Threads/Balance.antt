-- ===== src/Lower/Threads/Balance.antt =====
-- The counter and the bits of a child of src/lower.c, with what its threads owe and rely on.
use llfree_c.Base.{ℕ, ◌+◌, ◌^◌, ◌≤◌, ◌≡◌, ◌⊎◌, inl, inr, refl, arith, true, false, some, Bool-cases}
use llfree_c.Base.Bits.{two_pow_pos}
use llfree_c.Child.{Child, child_dec, child_inc}
use llfree_c.Child.Laws.{child_dec_lem, child_inc_lem}
use llfree_c.Bitfield.{Bitfield}
use llfree_c.Bitfield.Field.{ones}
use llfree_c.Bitfield.Frames.{frame_bit}
use llfree_c.Lower.Threads.{Worker, idle, counted, holds, freeing, cleared, whole, failed}
use llfree_c.Lower.Threads.Invariant.{owed, owns, IsSane, Balance, Effect}

-- What a thread relies on needs the bits of its own frames only.
pub IsSane-keep :
    (c d : Child) (f g : Bitfield) (u : Worker)
    → (c.huge ≡ true → owns u 0 ≡ true → d.huge ≡ true)
    → ((x : ℕ) → owns u x ≡ true → frame_bit f x ≡ 1 → frame_bit g x ≡ 1)
    → IsSane c f u
    → IsSane d g u
IsSane-keep c d f g idle huge bits sane = sane
IsSane-keep c d f g (counted order) huge bits sane = sane
IsSane-keep c d f g (cleared order) huge bits sane = sane
IsSane-keep c d f g (holds order pos) huge bits sane = record {
  run = sane.run;
  marked = λ x inside. bits x inside (sane.marked x inside);
}
IsSane-keep c d f g (freeing order pos) huge bits sane = record {
  run = sane.run;
  marked = λ x inside. bits x inside (sane.marked x inside);
}
IsSane-keep c d f g whole huge bits sane = huge sane refl
IsSane-keep c d f g failed huge bits sane = sane

-- A thread that owns a frame has its bit set, or the child is a huge page.
pub owner_bit :
    (c : Child) (f : Bitfield) (u : Worker) (x : ℕ)
    → IsSane c f u
    → owns u x ≡ true
    → (frame_bit f x ≡ 1) ⊎ (c.huge ≡ true)
owner_bit c f idle x sane own = ground arith
owner_bit c f (counted order) x sane own = ground arith
owner_bit c f (cleared order) x sane own = ground arith
owner_bit c f (holds order pos) x sane own = inl (sane.marked x own)
owner_bit c f (freeing order pos) x sane own = inl (sane.marked x own)
owner_bit c f whole x sane own = inr sane
owner_bit c f failed x sane own = absurd sane

-- An access that writes no bit and keeps the huge flag.
pub Effect-quiet :
    (c d : Child) (f : Bitfield) (w w' : Worker) (others : ℕ)
    → (c.huge ≡ true → d.huge ≡ true)
    → Balance d f (others + owed w')
    → IsSane d f w'
    → ((x : ℕ) → owns w' x ≡ true → owns w x ≡ true)
    → Effect c f w d f w' others
Effect-quiet c d f w w' others huge balance sane fewer = record {
  balance = balance;
  sane = sane;
  keeps = λ u old apart. IsSane-keep c d f f u (λ h own. huge h) (λ x own e. e) old;
  gains = λ x u gained before old own. ground (arith, fewer x gained, before);
}

pub Balance-dec :
    (c d : Child) (f : Bitfield) (order debt : ℕ)
    → order ≤ 6
    → Balance c f debt
    → child_dec c order ≡ some d
    → Balance d f (debt + 2 ^ order) × (c.huge ≡ true → d.huge ≡ true)
Balance-dec c d f order debt h b down =
    let law = child_dec_lem c order (omega arith) in
    let small : c.huge ≡ false = ground (arith, law, down) in
    let same : d.huge ≡ false = ground (arith, law, down) in
    let less : d.free + 2 ^ order ≡ c.free = ground (arith, law, down) in
    (
      record {
        field = b.field;
        counter = λ e. omega (arith, b.counter small, less);
        all_taken = λ e. ground (arith, e, same);
      },
      λ e. ground (arith, e, small),
    )

-- Where frames are owed the child is not huge, and its counter has room for them.
pub room :
    (c : Child) (f : Bitfield) (others order : ℕ)
    → Balance c f (others + 2 ^ order)
    → (c.huge ≡ false) × (c.free + ones f + others + 2 ^ order ≡ 512)
room c f others order b = elim (Bool-cases c.huge) [
  | inl huge ↦ let (_, _, none_owed) = b.all_taken huge in absurd (omega (arith, two_pow_pos order))
  | inr small ↦ (small, omega (arith, b.counter small))
]

-- A counter that gets frames back that are owed: the addition succeeds.
pub Balance-inc :
    (c : Child) (f : Bitfield) (order others : ℕ)
    → order ≤ 6
    → Balance c f (others + 2 ^ order)
    → (child_inc c order ≡ some (record c { free = c.free + 2 ^ order }))
      × Balance (record c { free = c.free + 2 ^ order }) f others
Balance-inc c f order others h b =
    let (small, sum) = room c f others order b in
    let law = child_inc_lem c order (omega arith) (omega arith) in
    (
      ground (arith, law, small, sum),
      record {
        field = b.field;
        counter = λ e. omega (arith, sum);
        all_taken = λ e. ground (arith, e, small);
      },
    )

pub Balance-debt : (c : Child) (f : Bitfield) (m n : ℕ) → m ≡ n → Balance c f m → Balance c f n
Balance-debt c f m n e b = record {
  field = b.field;
  counter = λ h. omega (arith, b.counter h, e);
  all_taken = λ h. let (a, o, d) = b.all_taken h in (a, o, omega (arith, d, e));
}
