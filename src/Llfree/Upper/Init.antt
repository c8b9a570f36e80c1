-- ===== src/Llfree/Upper/Init.antt =====
-- `llfree_init` of src/llfree.c, which frees or allocates all frames.
use llfree_c.Base.{
  ℕ, ◌+◌, ◌*◌, ◌/◌, ◌%◌, ◌^◌, ◌≤◌, ◌<◌, ◌≡◌, refl, ◌∙◌, arith, Bool, true, false, if◌then◌else◌,
  ltb, leb, leb-true, Option, some, List, [], length, get_elem?,
}
use llfree_c.Types.{llfree_ok, llfree_err, ok, Classing}
use llfree_c.Child.{Child}
use llfree_c.Bitfield.{Bitfield}
use llfree_c.Tree.{Tree}
use llfree_c.Trees.{Trees, trees_init}
use llfree_c.Local.{Locals, ll_local_init}
use llfree_c.Lower.State.{Lower}
use llfree_c.Lower.Init.{lower_init, init_free, init_alloc}
use llfree_c.Lower.Init.Start.{lower_init_lem}
use llfree_c.Lower.Spec.{is_free}
use llfree_c.Lower.Invariant.{entry_count}
use llfree_c.Lower.Counts.{tree_free, tree_free-le}
use llfree_c.Llfree.{Llfree}
use llfree_c.Llfree.Meta.{Meta, MetaSize, llfree_metadata_size, check_meta}
use llfree_c.Llfree.Manage.{init_tree_cb, llfree_init}
use llfree_c.Llfree.Upper.{count_at, IsUpper}
use llfree_c.Llfree.Upper.InitLocal.{AllClasses, ll_local_init_lem}
use llfree_c.Llfree.Upper.InitTrees.{init_tree_cb_lem, trees_init_lem}

-- A configuration and buffers that `llfree_init` accepts.
pub record IsSetup (frames : ℕ) (meta : Meta) (fields : List Bitfield) (children : List Child)
    (trees : List Tree) (classing : Classing) : Type 0 where
  pub at_least : 512 ≤ frames
  pub few : frames < 2 ^ 41
  pub some_class : 1 ≤ length classing.classes
  pub few_classes : length classing.classes ≤ 8
  pub classes : AllClasses classing.classes
  pub default_lt : classing.default_class < 8
  pub sizes : MetaSize
  pub asked : llfree_metadata_size classing frames ≡ some sizes
  pub placed : check_meta meta sizes ≡ true
  pub fields_len : length fields ≡ (frames + 511) / 512
  pub children_len : length children ≡ ((frames + 511) / 512 + 7) / 8 * 8
  pub trees_len : length trees ≡ (frames + 4095) / 4096

ltb-false : (a b : ℕ) → b ≤ a → ltb a b ≡ false
ltb-false a b h = ground arith

abbrev pub mode_of : Bool → ℕ
mode_of free_all = if free_all then init_free else init_alloc

initialized :
    (frames : ℕ) (free_all : Bool) (meta : Meta) (fields : List Bitfield) (children : List Child)
    (trees : List Tree) (classing : Classing) (low : Lower) (t : Trees) (l : Locals)
    → IsSetup frames meta fields children trees classing
    → lower_init fields children frames (mode_of free_all) ≡ some (low, llfree_err ok)
    → trees_init frames trees (some (init_tree_cb low)) classing.default_class ≡ some t
    → ll_local_init classing ≡ some l
    → llfree_init frames (mode_of free_all) meta fields children trees classing
      ≡ some (
        some (record {
          lower = low;
          local = l;
          trees = t;
          policy = classing.policy;
          num_classes = length classing.classes;
        }),
        llfree_ok 0 0,
      )
unfolding llfree_init
initialized frames true meta fields children trees classing low t l q lower array slots =
    let some_class : leb 1 (length classing.classes) ≡ true = leb-true _ _ q.some_class in
    let few_classes : leb (length classing.classes) 8 ≡ true = leb-true _ _ q.few_classes in
    let narrow : length classing.classes % 2 ^ 8 ≡ length classing.classes =
      omega (arith, q.few_classes) in
    let enough : ltb frames 512 ≡ false = ltb-false _ _ q.at_least in
    let not_many : ltb (2 ^ 52) frames ≡ false = ltb-false _ _ (omega (arith, q.few)) in
    let asked = q.asked in
    let placed = q.placed in
    cc (some_class, few_classes, asked, placed, enough, not_many, lower, array, slots, narrow)
initialized frames false meta fields children trees classing low t l q lower array slots =
    let some_class : leb 1 (length classing.classes) ≡ true = leb-true _ _ q.some_class in
    let few_classes : leb (length classing.classes) 8 ≡ true = leb-true _ _ q.few_classes in
    let narrow : length classing.classes % 2 ^ 8 ≡ length classing.classes =
      omega (arith, q.few_classes) in
    let enough : ltb frames 512 ≡ false = ltb-false _ _ q.at_least in
    let not_many : ltb (2 ^ 52) frames ≡ false = ltb-false _ _ (omega (arith, q.few)) in
    let asked = q.asked in
    let placed = q.placed in
    cc (some_class, few_classes, asked, placed, enough, not_many, lower, array, slots, narrow)

-- For one to eight classes with identifiers below 8, a default class below 8, buffers in place and
-- of the sizes that at least 512 and fewer than `2 ^ 41` frames ask for, whatever they hold,
-- `llfree_init` that frees or allocates all frames does not fail an assertion and succeeds. It
-- leaves a consistent allocator, in which exactly the frames below the number of frames are free,
-- or none.
pub llfree_init_lem :
    (frames : ℕ) (free_all : Bool) (meta : Meta) (fields : List Bitfield) (children : List Child)
    (trees : List Tree) (classing : Classing)
    → IsSetup frames meta fields children trees classing
    → (s : Llfree) × (shape : ℕ → Option (Option ℕ)) × (llfree_init frames
          (mode_of free_all)
          meta
          fields
          children
          trees
          classing
        ≡ some (some s, llfree_ok 0 0))
      × IsUpper frames shape [] s
      × ((x : ℕ) → is_free s.lower x ≡ (if free_all then ltb x frames else false))
llfree_init_lem frames free_all meta fields children trees classing q =
    let (low, lower, size, sound, bits, free) =
      lower_init_lem fields children frames free_all (omega (arith, q.few)) q.fields_len
        q.children_len in
    let inside = λ (j : ℕ) (lt : j < (frames + 4095) / 4096). entries_inside low j size lt in
    let (t, array, is_array, counters) =
      trees_init_lem frames trees (init_tree_cb low) (tree_free low) classing.default_class
        q.trees_len (λ j lt. init_tree_cb_lem low j (omega (arith, q.few, lt)) sound (inside j lt))
        (λ j lt. tree_free-le low j sound (inside j lt)) q.default_lt in
    let (l, slots, is_local, none_held) = ll_local_init_lem frames classing q.classes in
    (
      record {
        lower = low;
        local = l;
        trees = t;
        policy = classing.policy;
        num_classes = length classing.classes;
      },
      λ c. count_at (get_elem? l.classes c),
      initialized frames free_all meta fields children trees classing low t l q lower array slots,
      record {
        ready = record {
          size = size;
          sound = sound;
          bits = bits;
          ends = λ x behind. free x ∙ past free_all x behind;
        };
        array = is_array;
        slots = is_local;
        covered = λ i lt. omega (arith, counters i lt, none_held i);
      },
      free,
    )
  where
    past : (b : Bool) (x : ℕ) → frames ≤ x → (if b then ltb x frames else false) ≡ false
    past true x behind = ltb-false _ _ behind
    past false x behind = refl

    entries_inside :
        (low : Lower) (j : ℕ)
        → low.frames ≡ frames
        → j < (frames + 4095) / 4096
        → j * 8 + 8 ≤ entry_count low
    entries_inside low j size lt = omega (arith, size, lt)
