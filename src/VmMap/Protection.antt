-- ===== src/VmMap/Protection.antt =====
-- `vm_check_prot` (kernel/vm/map.c) as an order on protections.
use yak_kernel.Prelude.{◌≡◌, true, arith}
use yak_kernel.VmMap.{Prot, vm_check_prot}

-- A protection that another one allows allows no more than that one: `vm_check_prot` is transitive, and
-- every protection allows itself.
pub vm_check_prot_trans :
    (p q r : Prot)
    → (vm_check_prot p p ≡ true)
      × (vm_check_prot p q ≡ true → vm_check_prot q r ≡ true → vm_check_prot p r ≡ true)
vm_check_prot_trans p q r = (ground arith, λ a b. ground arith)
