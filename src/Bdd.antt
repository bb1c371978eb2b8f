-- ===== src/Bdd.antt =====
-- The tag store of src/bdd_tag.h and src/bdd_tag.cpp: a trie of segments in one vector of nodes.
pub mod Inv
pub mod Grow
pub mod Returns
pub mod Insert
pub mod Labels
pub mod Collect
pub mod Holds
pub mod Rebuild
pub mod Union
pub mod Find
mod Tests
use libdft64_ect.Prelude.{
  ℕ, zero, suc, ◌+◌, ◌-◌, ◌%◌, ◌^◌, Bool, true, false, ◌&&◌, ◌||◌, Option, none, some, List, [],
  ◌∷◌, ltb, leb, ◌==◌, if◌then◌else◌, ◌>>=◌,
}
use Prim.Native.Nat.{bit_or}

-- `tag_seg`: the offsets from `begin` up to, and without, `end`.
pub record TagSeg : Type 0 where
  pub sign : Bool
  pub begin : ℕ
  pub end : ℕ

pub record TagNode : Type 0 where
  pub left : ℕ
  pub right : ℕ
  pub parent : ℕ
  pub seg : TagSeg

-- `std::vector<TagNode> nodes`: the nodes below `size`.
pub record Nodes : Type 0 where
  pub size : ℕ
  pub at : ℕ → TagNode

-- `MAX_LB`, `(1 << LB_WIDTH) - 1`; `& LB_MASK` is `% lb_range`.
abbrev pub lb_range : ℕ
lb_range = 2 ^ 24

abbrev pub max_lb : ℕ
max_lb = 16_777_215

abbrev pub len_lb : ℕ
len_lb = 0xf0000000

abbrev pub root : ℕ
root = 0

abbrev pub new_node : ℕ → ℕ → ℕ → TagNode
new_node p b e = record {
  left = 0;
  right = 0;
  parent = p;
  seg = record { sign = false; begin = b; end = e };
}

-- The assignment `nodes[i] = n`.
abbrev pub put : Nodes → ℕ → TagNode → Nodes
put ns i n = record ns { at = λ j. if j == i then n else ns.at j }

abbrev pub set_left : Nodes → ℕ → ℕ → Nodes
set_left ns i v = put ns i (record (ns.at i) { left = v })

abbrev pub set_right : Nodes → ℕ → ℕ → Nodes
set_right ns i v = put ns i (record (ns.at i) { right = v })

abbrev pub set_parent : Nodes → ℕ → ℕ → Nodes
set_parent ns i v = put ns i (record (ns.at i) { parent = v })

abbrev pub set_begin : Nodes → ℕ → ℕ → Nodes
set_begin ns i v = put ns i (record (ns.at i) { seg = record (ns.at i).seg { begin = v } })

-- `unsigned int` subtraction.
abbrev pub sub32 : ℕ → ℕ → ℕ
sub32 a b = (a + 2 ^ 32 - b) % 2 ^ 32

abbrev pub get_seg_size : TagNode → ℕ
get_seg_size n = sub32 n.seg.end n.seg.begin

-- `BDDTag::BDDTag`.
pub init : Nodes
init = record { size = 1; at = λ _. new_node root 0 0 }

-- `none` is the division by zero of the full vector.
pub alloc_node : Nodes → ℕ → ℕ → ℕ → Option (Nodes × ℕ)
alloc_node ns p b e =
    let lb = ns.size % 2 ^ 32 in
    if ltb lb max_lb
    then some (record (put ns ns.size (new_node p b e)) { size = ns.size + 1 }, lb)
    else none

-- The loop of `insert_n_zeros` on fuel, which its caller sets to `num`.
pub zeros_loop : ℕ → Nodes → ℕ → ℕ → ℕ → Option (Nodes × ℕ)
zeros_loop zero ns cur num last = if num == 0 then some (ns, cur) else none
zeros_loop (suc fuel) ns cur num last =
    let next = (ns.at cur).left in
    let next_size = get_seg_size (ns.at next) in
    let off = (ns.at cur).seg.end in
    let rest = zeros_loop fuel ns next (num - next_size) last in
    if num == 0
    then some (ns, cur)
    else if next == 0
    then (do
      (ns1, new_lb) ← alloc_node ns last off ((off + num) % 2 ^ 32)
      some (set_left ns1 cur new_lb, new_lb))
    else if ltb num next_size
    then (do
      (ns1, new_lb) ← alloc_node ns last off ((off + num) % 2 ^ 32)
      some (set_begin (set_left ns1 cur new_lb) next ((off + num) % 2 ^ 32), new_lb))
    else rest

pub insert_n_zeros : Nodes → ℕ → ℕ → ℕ → Option (Nodes × ℕ)
unfolding zeros_loop
insert_n_zeros ns cur num last = zeros_loop num ns cur num last

-- The loop of `insert_n_ones` on fuel, which its caller sets to `num`.
pub ones_loop : ℕ → Nodes → ℕ → ℕ → ℕ → Option (Nodes × ℕ)
ones_loop zero ns cur num last = if num == 0 then some (ns, cur) else none
ones_loop (suc fuel) ns cur num last =
    let next = (ns.at cur).right in
    let last_end = (ns.at cur).seg.end in
    let next_size = sub32 (ns.at next).seg.end last_end in
    let rest = ones_loop fuel ns next (num - next_size) last in
    if num == 0
    then some (ns, cur)
    else if next == 0
    then (do
      (ns1, new_lb) ← alloc_node ns last last_end ((last_end + num) % 2 ^ 32)
      some (set_right ns1 cur new_lb, new_lb))
    else if ltb num next_size
    then (do
      (ns1, new_lb) ← alloc_node ns last last_end ((last_end + num) % 2 ^ 32)
      let ns2 = set_right (set_right ns1 cur new_lb) new_lb next
      some (set_begin (set_parent ns2 next new_lb) next ((last_end + num) % 2 ^ 32), new_lb))
    else rest

pub insert_n_ones : Nodes → ℕ → ℕ → ℕ → Option (Nodes × ℕ)
unfolding ones_loop
insert_n_ones ns cur num last = ones_loop num ns cur num last

pub insert : Nodes → ℕ → Option (Nodes × ℕ)
unfolding insert_n_zeros insert_n_ones
insert ns pos = do (ns1, cur_lb) ← insert_n_zeros ns root pos root; insert_n_ones ns1 cur_lb 1 root

pub set_sign : Nodes → ℕ → Nodes
set_sign ns lb = put ns lb (record (ns.at lb) { seg = record (ns.at lb).seg { sign = true } })

pub get_sign : Nodes → ℕ → Bool
get_sign ns lb = (ns.at lb).seg.sign

-- `seg.end += (size - 1)`, with the two wraps of `size_t` and `tag_off`.
pub set_size : Nodes → ℕ → ℕ → Nodes
set_size ns lb size = put ns lb (record (ns.at lb) {
  seg = record (ns.at lb).seg { end = ((ns.at lb).seg.end + (size + 2 ^ 64 - 1)) % 2 ^ 32 };
})

-- What the first loop of `combine` leaves: `l1`, `l2` and the stack, its top first.
pub record Collected : Type 0 where
  pub l1 : ℕ
  pub l2 : ℕ
  pub lb_st : List ℕ

-- The first loop of `combine` on fuel: the segments of both labels that are not shared.
pub collect_loop : ℕ → Nodes → ℕ → ℕ → List ℕ → ℕ → Option Collected
collect_loop zero ns l1 l2 lb_st last_begin =
    if ltb 0 l1 && (if l1 == l2 then false else true)
    then none
    else some (record { l1 = l1; l2 = l2; lb_st = lb_st })
collect_loop (suc fuel) ns l1 l2 lb_st last_begin =
    let b1 = (ns.at l1).seg.begin in
    let b2 = (ns.at l2).seg.begin in
    let rest1 =
      collect_loop fuel ns l1 (ns.at l2).parent (if ltb b2 last_begin then l2 ∷ lb_st else lb_st)
        (if ltb b2 last_begin then b2 else last_begin) in
    let rest2 =
      collect_loop fuel ns (ns.at l1).parent l2 (if ltb b1 last_begin then l1 ∷ lb_st else lb_st)
        (if ltb b1 last_begin then b1 else last_begin) in
    if ltb 0 l1 && (if l1 == l2 then false else true)
    then (if ltb b1 b2 then rest1 else rest2)
    else some (record { l1 = l1; l2 = l2; lb_st = lb_st })

-- `if (next_seg.sign) nodes[cur_lb].seg.sign = true`.
pub keep_sign : Bool → Nodes × ℕ → Nodes × ℕ
unfolding set_sign
keep_sign sign (ns, cur_lb) = (if sign then set_sign ns cur_lb else ns, cur_lb)

-- The node for the segment `next_seg` behind `cur_lb`, whose segment is `cur_seg`.
pub place : Nodes → ℕ → TagSeg → TagSeg → Option (Nodes × ℕ)
unfolding insert_n_zeros insert_n_ones
place ns cur_lb cur_seg next_seg =
    if leb next_seg.begin cur_seg.end
    then (if ltb cur_seg.end next_seg.end
        then insert_n_ones ns cur_lb (sub32 next_seg.end cur_seg.end) cur_lb
        else some (ns, cur_lb))
    else (do
      (ns1, lb1) ← insert_n_zeros ns cur_lb (sub32 next_seg.begin cur_seg.end) cur_lb
      insert_n_ones ns1 lb1 (sub32 next_seg.end next_seg.begin) cur_lb)

-- One round of the second loop of `combine`.
pub rebuild_step : Nodes → ℕ → ℕ → Option (Nodes × ℕ)
unfolding place keep_sign
rebuild_step ns cur_lb next = do
  r ← place ns cur_lb (ns.at cur_lb).seg (ns.at next).seg
  some (keep_sign (ns.at next).seg.sign r)

-- The second loop of `combine`.
pub rebuild : Nodes → ℕ → List ℕ → Option (Nodes × ℕ)
rebuild ns cur_lb [] = some (ns, cur_lb)
rebuild ns cur_lb (next ∷ lb_st) = do
  (ns1, lb1) ← rebuild_step ns cur_lb next
  rebuild ns1 lb1 lb_st

-- Both loops of `combine` at two labels less their flags.
pub combine_labels : Nodes → ℕ → ℕ → Option (Nodes × ℕ)
unfolding collect_loop rebuild rebuild_step
combine_labels ns l1 l2 = do
  c ← collect_loop (l1 + l2) ns l1 l2 [] max_lb
  rebuild ns (if ltb 0 c.l1 then c.l1 else c.l2) c.lb_st

abbrev pub has_len_lb : ℕ → Bool
has_len_lb lb = leb len_lb lb

pub combine : Nodes → ℕ → ℕ → Option (Nodes × ℕ)
unfolding combine_labels
combine ns l1 l2 =
    let a = l1 % lb_range in
    let b = l2 % lb_range in
    if l1 == 0 then some (ns, l2) else if l2 == 0 || l1 == l2 then some (ns, l1) else (do
      (ns1, cur_lb) ← combine_labels ns (if ltb b a then b else a) (if ltb b a then a else b)
      some (ns1, if has_len_lb l1 || has_len_lb l2 then bit_or cur_lb len_lb else cur_lb))

-- The loop of `find` on fuel; `tag_list` has its last element first.
pub find_loop : ℕ → Nodes → ℕ → List TagSeg → ℕ → Option (List TagSeg)
find_loop zero ns lb tag_list last_begin = if ltb 0 lb then none else some tag_list
find_loop (suc fuel) ns lb tag_list last_begin =
    let s = (ns.at lb).seg in
    let rest =
      find_loop fuel ns (ns.at lb).parent
        (if ltb s.begin last_begin then s ∷ tag_list else tag_list)
        (if ltb s.begin last_begin then s.begin else last_begin) in
    if ltb 0 lb then rest else some tag_list

-- `push_back` for each segment and one `reverse` at the end: the list is built from its end.
pub find : Nodes → ℕ → Option (List TagSeg)
unfolding find_loop
find ns lb = find_loop (lb % lb_range) ns (lb % lb_range) [] max_lb
