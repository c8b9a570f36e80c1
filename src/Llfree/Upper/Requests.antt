-- ===== src/Llfree/Upper/Requests.antt =====
-- `validate_request` of src/llfree.c: what an accepted request satisfies.
use llfree_c.Base.{
  ℕ, ◌+◌, ◌%◌, ◌^◌, ◌≤◌, ◌<◌, ◌≡◌, sym, ap, ◌∙◌, arith, Bool, true, false, ◌&&◌, ltb, leb,
  Bool-cases, inl, inr, Option, some, none, List, refl, leb-true,
}
use llfree_c.Base.Bits.{two_pow_le}
use llfree_c.Types.{Request}
use llfree_c.Local.{Locals, Reserved, count_of, ll_local_class_locals, get_slot}
use llfree_c.Llfree.{Llfree}
use llfree_c.Llfree.Get.{validate_request, local_in_bounds, frame_fits}
use llfree_c.Llfree.Upper.{IsLocal, IsUpper}
use llfree_c.Llfree.Upper.Slots.{slot_at}
use llfree_c.Llfree.Upper.Steal.{class_at}

-- The run that a request names lies in the memory.
abbrev pub FitsMemory : ℕ → ℕ → Option ℕ → Type 0
FitsMemory frames size none = Unit
FitsMemory frames size (some f) = (f + size ≤ frames) × (f % size ≡ 0)

abbrev pub HasLocal : Option ℕ → ℕ → Type 0
HasLocal none len = Unit
HasLocal (some index) len = index < len

-- A request for a class that is configured, with a slot of that class if any.
pub record IsRequest (frames : ℕ) (shape : ℕ → Option (Option ℕ)) (request : Request)
    (frame : Option ℕ) : Type 0 where
  pub class_lt : request.class < 8
  pub len : ℕ
  pub configured : shape request.class ≡ some (some len)
  pub local_lt : HasLocal request.local len
  pub size_le : 2 ^ request.order ≤ frames
  pub fits : FitsMemory frames (2 ^ request.order) frame

pub ll_local_class_locals_lem :
    (frames : ℕ) (shape : ℕ → Option (Option ℕ)) (l : Locals) (c : ℕ)
    → IsLocal frames shape l
    → c < 8
    → (k : Option ℕ) × (ll_local_class_locals l c ≡ some k) × (shape c ≡ some k)
unfolding ll_local_class_locals
ll_local_class_locals_lem frames shape l c local lt =
    let (slots, at, configured) = class_at frames shape l c local lt in
    (count_of slots, ground (arith, at, lt), configured)

in_bounds-HasLocal : (i : Option ℕ) (len : ℕ) → local_in_bounds i len ≡ true → HasLocal i len
in_bounds-HasLocal none len e = record {}
in_bounds-HasLocal (some i) len e = ground (arith, e)

frame_fits-FitsMemory :
    (frames size : ℕ) (frame : Option ℕ)
    → size ≤ frames
    → frame_fits frames size frame ≡ true
    → FitsMemory frames size frame
frame_fits-FitsMemory frames size none h e = record {}
frame_fits-FitsMemory frames size (some f) h e = (ground (arith, e), ground (arith, e))

-- The test ends, and what it accepts is a request.
pub validate_request_lem :
    {frames : ℕ} {shape : ℕ → Option (Option ℕ)} {hand : List (ℕ × ℕ)} (s : Llfree)
    (request : Request) (frame : Option ℕ)
    → IsUpper frames shape hand s
    → (valid : Bool) × (validate_request s request frame ≡ some valid)
      × (valid ≡ true → IsRequest frames shape request frame)
unfolding validate_request ll_local_class_locals
validate_request_lem {frames} {shape} s request frame u = elim (Bool-cases (ltb 12 request.order)) [
  | inl large ↦ (false, ground (arith, large), λ e. ground (arith, e))
  | inr small ↦ elim (Bool-cases (leb 8 request.class)) [
    | inl outside ↦ (false, beyond small outside, λ e. ground (arith, e))
    | inr inside ↦
        let (k, ran, configured) =
          ll_local_class_locals_lem frames shape s.local request.class u.slots
            (ground (arith, inside)) in
        elim k
            as (λ (k' : Option ℕ).
              ll_local_class_locals s.local request.class ≡ some k'
              → shape request.class ≡ some k'
              → (valid : Bool) × (validate_request s request frame ≡ some valid)
                × (valid ≡ true → IsRequest frames shape request frame)) [
                  | none ↦ λ ran' _. (false, cc (small, ran'), λ e. ground (arith, e))
                  | some len ↦ λ ran' configured'. (
                    local_in_bounds request.local len
                        && (leb (2 ^ request.order) s.lower.frames
                            && frame_fits s.lower.frames (2 ^ request.order) frame),
                    cc (small, ran'),
                    λ e.
                        let size = u.ready.size in
                        let room : 2 ^ request.order ≤ frames = ground (arith, e, size) in
                        let fit : frame_fits s.lower.frames (2 ^ request.order) frame ≡ true =
                          ground (arith, e) in
                        record {
                          class_lt = ground (arith, inside);
                          len = len;
                          configured = configured';
                          local_lt = in_bounds-HasLocal request.local len (ground (arith, e));
                          size_le = room;
                          fits = frame_fits-FitsMemory frames (2 ^ request.order) frame room (
                              ap (λ (n : ℕ). frame_fits n (2 ^ request.order) frame) (sym size)
                              ∙ fit);
                        },
                  )
                ]
          ran configured
  ]
]
  where
    beyond :
        ltb 12 request.order ≡ false
        → leb 8 request.class ≡ true
        → validate_request s request frame ≡ some false
    beyond small outside = cc (small, outside)

local_in_bounds-true : (i : Option ℕ) (len : ℕ) → HasLocal i len → local_in_bounds i len ≡ true
local_in_bounds-true none len h = refl
local_in_bounds-true (some i) len h = ground (arith, h)

frame_fits-true :
    (frames size : ℕ) (frame : Option ℕ)
    → FitsMemory frames size frame
    → frame_fits frames size frame ≡ true
frame_fits-true frames size none h = refl
frame_fits-true frames size (some f) (room, aligned) = ground (arith, room, aligned)

-- A request is accepted.
validate_request-accepts :
    {frames : ℕ} {shape : ℕ → Option (Option ℕ)} {hand : List (ℕ × ℕ)} (s : Llfree)
    (request : Request) (frame : Option ℕ)
    → IsUpper frames shape hand s
    → request.order ≤ 12
    → IsRequest frames shape request frame
    → validate_request s request frame ≡ some true
unfolding validate_request
validate_request-accepts {frames} {shape} s request frame u low q =
    let (k, read, configured) =
      ll_local_class_locals_lem frames shape s.local request.class u.slots q.class_lt in
    let size = u.ready.size in
    let n = 2 ^ request.order in
    let small : ltb 12 request.order ≡ false = ground (arith, low) in
    let asked = q.configured in
    let count : ll_local_class_locals s.local request.class ≡ some (some q.len) =
      cc (read, configured, asked) in
    let own = local_in_bounds-true request.local q.len q.local_lt in
    let room : leb n s.lower.frames ≡ true =
      let fits = q.size_le in leb-true _ _ (omega (arith, size, fits)) in
    let fit : frame_fits s.lower.frames n frame ≡ true =
      ap (λ (m : ℕ). frame_fits m n frame) size ∙ frame_fits-true frames n frame q.fits in
    rw (small, count, own, room, fit) refl

-- What is refused is no request.
pub validate_request-refuses :
    {frames : ℕ} {shape : ℕ → Option (Option ℕ)} {hand : List (ℕ × ℕ)} (s : Llfree)
    (request : Request) (frame : Option ℕ)
    → IsUpper frames shape hand s
    → request.order ≤ 12
    → validate_request s request frame ≡ some false
    → IsRequest frames shape request frame
    → ⊥
validate_request-refuses s request frame u low no_request q =
    let accepted = validate_request-accepts s request frame u low q in
    ground (arith, accepted, no_request)

-- The slot of a request.
pub local_slot :
    {frames : ℕ} {shape : ℕ → Option (Option ℕ)} {hand : List (ℕ × ℕ)} (s : Llfree)
    (request : Request) (frame : Option ℕ) (index : ℕ)
    → IsUpper frames shape hand s
    → (q : IsRequest frames shape request frame) → index < q.len
    → (r : Reserved) × (get_slot s.local request.class index ≡ some r)
local_slot {frames} {shape} s request frame index u q lt =
    slot_at frames shape s.local request.class index q.len u.slots q.class_lt q.configured lt

-- The size of a run inside a row fits a word.
pub u32_two_pow : (k : ℕ) → k ≤ 6 → (2 ^ k) % 2 ^ 32 ≡ 2 ^ k
u32_two_pow k h = omega (arith, two_pow_le k 6 h)
