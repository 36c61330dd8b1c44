-- ===== src/Pmm.antt =====
-- kernel/vm/pmm.c: the physical page allocator, a buddy allocator for each zone of memory. A page is
-- known by its frame number, so that `page + k` adds to it. `none` is a failed assertion. The zone's
-- spinlock is held for the length of an operation, which is one step here. `zone_validate` is on, as with
-- CONFIG_DEBUG.
pub mod Zones
pub mod Cover
pub mod Alloc
pub mod HandOut
pub mod ZoneAlloc
pub mod Free
mod Tests
use yak_kernel.Prelude.{
  ℕ, zero, suc, ◌+◌, ◌-◌, ◌*◌, ◌/◌, ◌%◌, ◌^◌, Bool, true, false, ◌&&◌, not, List, [], ◌∷◌, ◌++◌,
  Option, none, some, put, ltb, leb, ◌==◌, if◌then◌else◌, add_size, sub_size,
}

-- kernel/arch/x86_64/include/yak/arch-mm.h
abbrev pub buddy_orders : ℕ
buddy_orders = 7

-- The fields of `struct page` that the allocator uses.
pub record Page : Type 0 where
  pub shares : ℕ
  pub order : ℕ
  pub max_order : ℕ

-- `struct zone`. `orders` has the free blocks of each order by the frame of their first page.
pub record Zone : Type 0 where
  pub zone_id : ℕ
  pub max_zone_order : ℕ
  pub base : ℕ
  pub end : ℕ
  pub may_alloc : Bool
  pub orders : ℕ → List ℕ
  pub npages : ℕ → ℕ

-- What the zones share: the pages of all regions, and `free_pagecnt`.
pub record Memory : Type 0 where
  pub pages : ℕ → Page
  pub free_pagecnt : ℕ

abbrev pub is_empty : List ℕ → Bool
is_empty [] = true
is_empty (p ∷ ps) = false

-- `zone_validate`, from `order` down to 0: whether its assertions hold.
unfoldable pub orders_valid : ℕ → Zone → Bool
orders_valid zero z = true
orders_valid (suc order) z =
    (if ltb 0 (z.npages order) then not (is_empty (z.orders order)) else is_empty (z.orders order))
    && orders_valid order z

unfoldable pub zone_validate : Zone → Bool
unfolding orders_valid
zone_validate z = orders_valid buddy_orders z

-- `TAILQ_REMOVE` of the first block, and `TAILQ_INSERT_TAIL`, each with `npages`.
abbrev pub remove_first : Zone → ℕ → List ℕ → Zone
remove_first z order rest = record z {
  orders = put z.orders order rest;
  npages = put z.npages order (sub_size (z.npages order) 1);
}

abbrev pub insert_tail : Zone → ℕ → ℕ → Zone
insert_tail z order page = record z {
  orders = put z.orders order (z.orders order ++ page ∷ []);
  npages = put z.npages order (add_size (z.npages order) 1);
}

-- `while (++order < BUDDY_ORDERS && TAILQ_EMPTY(...))`, from `order` on with `n` orders left.
unfoldable pub first_order : Zone → ℕ → ℕ → Option ℕ
first_order z order zero = none
first_order z order (suc n) = elim (is_empty (z.orders order)) [
  | true ↦ first_order z (order + 1) n
  | false ↦ some order
]

abbrev pub set_order : (ℕ → Page) → ℕ → ℕ → ℕ → Page
set_order pages p order = put pages p (record (pages p) { order = order })

abbrev pub set_shares : (ℕ → Page) → ℕ → ℕ → ℕ → Page
set_shares pages p shares = put pages p (record (pages p) { shares = shares })

-- `while (order != desired_order)`, at `order = desired + n`: the upper half goes to the free list of
-- the order below. `buddy` is `page + (1 << order) / 2`.
unfoldable pub split : ℕ → ℕ → ℕ → Zone → (ℕ → Page) → Zone × (ℕ → Page)
split zero desired page z pages = (z, pages)
split (suc n) desired page z pages =
    let order = desired + n in
    let buddy = page + 2 ^ suc order / 2 in
    split n desired page (insert_tail z order buddy) (set_order pages buddy order)

-- The end of `zone_alloc`, with the block found: the assertions on the page and on the zone, the
-- reference, and the count.
unfoldable pub hand_out : ℕ → ℕ → Zone → Memory → (ℕ → Page) → Option (Option ℕ × Zone × Memory)
unfolding zone_validate
hand_out desired page z mem pages =
    if (pages page).shares == 0 && zone_validate z
    then some (
      some page,
      z,
      record {
        pages = set_shares pages page 1;
        free_pagecnt = sub_size mem.free_pagecnt (2 ^ desired);
      },
    )
    else none

-- The block is taken off its list, split, and given its order.
unfoldable pub alloc_split : ℕ → ℕ → Zone → Memory → Option (Option ℕ × Zone × Memory)
unfolding split hand_out
alloc_split order desired z mem = elim (z.orders order) [
  | [] ↦ none
  | page ∷ rest ↦
      let (z', pages) =
        split (order - desired) desired page (remove_first z order rest) mem.pages in
      hand_out desired page z' mem (set_order pages page desired)
]

unfoldable pub alloc_exact : ℕ → Zone → Memory → Option (Option ℕ × Zone × Memory)
unfolding hand_out
alloc_exact desired z mem = elim (z.orders desired) [
  | [] ↦ none
  | page ∷ rest ↦ hand_out desired page (remove_first z desired rest) mem mem.pages
]

unfoldable pub zone_alloc : ℕ → Zone → Memory → Option (Option ℕ × Zone × Memory)
unfolding first_order alloc_split alloc_exact zone_validate
zone_alloc desired z mem =
    if not (ltb desired buddy_orders)
    then none
    else if ltb z.max_zone_order desired
    then some (none, z, mem)
    else if not (zone_validate z)
    then none
    else if ltb 0 (z.npages desired)
    then alloc_exact desired z mem
    else elim (first_order z (desired + 1) (buddy_orders - 1 - desired)) [
      | none ↦ some (none, z, mem)
      | some order ↦ alloc_split order desired z mem
    ]

-- `page_addr ^ block_size`, in frames.
abbrev pub buddy_of : ℕ → ℕ → ℕ
buddy_of page order = if page / 2 ^ order % 2 == 0 then page + 2 ^ order else page - 2 ^ order

abbrev pub remove_page : ℕ → List ℕ → List ℕ
remove_page p [] = []
remove_page p (q ∷ ps) = if p == q then ps else q ∷ remove_page p ps

abbrev pub is_in : ℕ → List ℕ → Bool
is_in p [] = false
is_in p (q ∷ ps) = if p == q then true else is_in p ps

-- One round of the loop of `zone_free`, whose buddy is free and of the same order: the assertions, and
-- the removal of the buddy from its list.
abbrev pub can_merge : Page → Page → Bool
can_merge page buddy = buddy.shares == 0 && buddy.order == page.order

abbrev pub remove_buddy : Zone → ℕ → ℕ → Zone
remove_buddy z order buddy = record z {
  npages = put z.npages order (sub_size (z.npages order) 1);
  orders = put z.orders order (remove_page buddy (z.orders order));
}

abbrev pub bump_orders : (ℕ → Page) → ℕ → ℕ → ℕ → Page
bump_orders pages buddy page =
    let once = set_order pages buddy ((pages buddy).order + 1) in
    set_order once page ((once page).order + 1)

abbrev pub lower_of : ℕ → ℕ → ℕ
lower_of page buddy = if ltb buddy page then buddy else page

-- What follows the loop. `insert_head` is `TAILQ_INSERT_HEAD`.
unfoldable pub free_end : ℕ → ℕ → ℕ → Zone → Memory → (ℕ → Page) → Option (Zone × Memory)
unfolding zone_validate
free_end initial order page z mem pages =
    let z' : Zone = record z {
      npages = put z.npages order (add_size (z.npages order) 1);
      orders = put z.orders order (page ∷ z.orders order);
    } in
    if (pages page).order == order && zone_validate z'
    then some (z', record { pages = pages; free_pagecnt = add_size mem.free_pagecnt (2 ^ initial) })
    else none

-- The loop, on fuel: the order grows in each round, and at `BUDDY_ORDERS`, behind the end of the array of
-- lists, it is used up; `max_order` is below it. `exists` says which frames `pmm_lookup_page` finds. The result has the page and the order, at the end of the loop.
unfoldable pub merge :
    ℕ → ℕ → ℕ → (ℕ → Bool) → Zone → (ℕ → Page) → Option (ℕ × ℕ × Zone × (ℕ → Page))
merge zero order page exists z pages = none
merge (suc n) order page exists z pages =
    let buddy = buddy_of page order in
    let rest =
      merge n (order + 1) (lower_of page buddy) exists (remove_buddy z order buddy)
        (bump_orders pages buddy page) in
    if not (ltb order (pages page).max_order)
    then some (page, order, z, pages)
    else if not (exists buddy && (pages buddy).max_order == (pages page).max_order)
    then none
    else if not (can_merge (pages page) (pages buddy))
    then some (page, order, z, pages)
    else if ltb 0 (z.npages order) && is_in buddy (z.orders order)
    then rest
    else none

unfoldable pub zone_free : ℕ → ℕ → (ℕ → Bool) → Zone → Memory → Option (Zone × Memory)
unfolding merge free_end zone_validate
zone_free page order exists z mem =
    if ltb order buddy_orders && (zone_validate z && (mem.pages page).shares == 0)
    then elim (merge (buddy_orders - order) order page exists z mem.pages) [
      | none ↦ none
      | some (last, final, z', pages) ↦ free_end order final last z' mem pages
    ]
    else none
