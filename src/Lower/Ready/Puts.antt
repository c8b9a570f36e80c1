-- ===== src/Lower/Ready/Puts.antt =====
-- `lower_put` of src/lower.c, for the runs inside a row.
use llfree_c.Base.{ℕ, ◌+◌, ◌%◌, ◌^◌, ◌≤◌, ◌<◌, ◌≡◌, ◌⊎◌, inl, inr, arith, true, false, ◌∙◌, some}
use llfree_c.Types.{Outcome, llfree_err, ok, memory}
use llfree_c.Bitfield.Frames.{in_run}
use llfree_c.Lower.State.{Lower}
use llfree_c.Lower.Put.{lower_put}
use llfree_c.Lower.Spec.{is_free}
use llfree_c.Lower.Release.{lower_put-Release}
use llfree_c.Lower.Ready.{IsReady, Put}

-- The frames of the run go from allocated to free, or nothing changes and some frame was free.
pub lower_put-Put :
    (frames : ℕ) (l : Lower) (frame order : ℕ)
    → frames < 2 ^ 41
    → IsReady frames l
    → order ≤ 6
    → frame + 2 ^ order ≤ frames
    → frame % 2 ^ order ≡ 0
    → (r : Lower × Outcome) × (lower_put l frame order ≡ some r)
      × (((r.1 ≡ llfree_err ok) × Put frames l r.0 (2 ^ order) frame)
          ⊎ ((r ≡ (l, llfree_err memory))
              × (((x : ℕ) → in_run frame (2 ^ order) x ≡ true → is_free l x ≡ false) → ⊥)))
lower_put-Put frames l frame order few ready h inside aligned =
    let (r, ran, end) =
      lower_put-Release l frame order ready.sound (omega (arith, ready.bits, ready.size))
        (omega (arith, ready.size)) h (omega (arith, ready.size)) aligned in
    (
      r,
      ran,
      elim end [
        | inr refused ↦ inr refused
        | inl (done, returns, sound, _, counters, size, bits) ↦ inl (
          done,
          record {
            ready = record {
              size = size ∙ ready.size;
              sound = sound;
              bits = bits ∙ ready.bits;
              ends = λ x behind.
                  let outside : in_run frame (2 ^ order) x ≡ false = ground (arith, inside) in
                  returns.now x ∙ rw outside (ready.ends x behind);
            };
            returns = returns;
            counters = counters;
          },
        )
      ],
    )
