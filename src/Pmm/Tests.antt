-- ===== src/Pmm/Tests.antt =====
-- Runs of kernel/vm/pmm.c, and the theorems at a zone with one free block of four pages.
use yak_kernel.Prelude.{
  add_size, sub_size, ℕ, ◌+◌, ◌^◌, ◌≤◌, ◌<◌, ◌≡◌, refl, ◌⊎◌, true, List, [], ◌∷◌, Option, none,
  some, arith, ◌==◌, if◌then◌else◌,
}
use yak_kernel.Pmm.{Zone, Memory, buddy_orders, zone_alloc, zone_free}
use yak_kernel.Pmm.Cover.{covers, covers-IsAdditive, weight}
use yak_kernel.Pmm.Alloc.{IsValid}
use yak_kernel.Pmm.HandOut.{Handed}
use yak_kernel.Pmm.ZoneAlloc.{zone_alloc-hands_out}
use yak_kernel.Pmm.Free.{zone_free-weight}
use yak_kernel.Pmm.Zones.{Region, max_zones, new_zone, IsSortedFrom}

abbrev one_block : Zone
one_block = record {
  zone_id = 1;
  max_zone_order = 2;
  base = 0;
  end = 2 ^ 32;
  may_alloc = true;
  orders = λ o. if o == 2 then 8 ∷ [] else [];
  npages = λ o. if o == 2 then 1 else 0;
}

abbrev unused : Memory
unused = record { pages = λ p. record { shares = 0; order = 2; max_order = 2 }; free_pagecnt = 4 }

one_block-IsValid : IsValid one_block unused.pages
one_block-IsValid = record {
  counted = λ o. ground arith;
  small = omega arith;
  apart = λ f. ground arith;
  unused = λ f free. refl;
}

one_in_range : 1 < buddy_orders
one_in_range = omega arith

zone_alloc-hands_out_example :
    ((zone_alloc 1 one_block unused ≡ some (none, one_block, unused))
      × ((2 < 1) ⊎ ((i : ℕ) → 1 ≤ i → i < buddy_orders → one_block.orders i ≡ [])))
    ⊎ ((page : ℕ) × (z' : Zone) × (mem' : Memory) × (zone_alloc 1 one_block unused
          ≡ some (some page, z', mem'))
        × Handed 1 page one_block unused z' mem')
zone_alloc-hands_out_example =
    zone_alloc-hands_out 1 one_block unused one_in_range one_block-IsValid

-- Page 8 is back, and merges with its free buddy 9.
abbrev without_eight : Zone
without_eight = record one_block {
  orders = λ o. if o == 0 then 9 ∷ [] else [];
  npages = λ o. if o == 0 then 1 else 0;
}

abbrev small_pages : Memory
small_pages = record {
  pages = λ p. record { shares = 0; order = 0; max_order = 1 };
  free_pagecnt = 1;
}

abbrev freed : Option (Zone × Memory)
freed = zone_free 8 0 (λ p. true) without_eight small_pages

abbrev zone_of : Option (Zone × Memory) → Zone
zone_of none = one_block
zone_of (some r) = r.0

abbrev memory_of : Option (Zone × Memory) → Memory
memory_of none = unused
memory_of (some r) = r.1

merged : (zone_of freed).orders 1 ≡ 8 ∷ []
unfolding zone_free add_size sub_size
merged = refl

freed_runs : freed ≡ some (zone_of freed, memory_of freed)
unfolding zone_free add_size sub_size
freed_runs = refl

zone_free-weight_example :
    weight (covers 9) (zone_of freed).orders ≡ weight (covers 9) without_eight.orders + covers 9 8 0
zone_free-weight_example =
    zone_free-weight (covers 9) (covers-IsAdditive 9) 8 0 (λ p. true) without_eight small_pages
      (zone_of freed) (memory_of freed) freed_runs

two_zones : 2 < max_zones
two_zones = omega arith

abbrev zone_list : List Zone
zone_list = new_zone 1 true 0 4096 ∷ new_zone 2 true 16384 32768 ∷ []

zone_list-IsSorted : IsSortedFrom 0 zone_list
zone_list-IsSorted = (omega arith, (omega arith, tt))

abbrev low_region : Region
low_region = record { base = 4096; end = 8192 }

abbrev high_region : Region
high_region = record { base = 8192; end = 16384 }

low_region_up : low_region.base ≤ low_region.end
low_region_up = omega arith
