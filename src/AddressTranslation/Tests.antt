-- ===== src/AddressTranslation/Tests.antt =====
-- The translator with one region of a page.
use swap_prefetch.Common.{◌+◌, ◌≡◌, ◌≢◌, refl, true, false, none, some, [], ◌∷◌, arith, inl, ◌⊎◌}
use swap_prefetch.RdmaSim.Errno.{enomem, ok, err}
use swap_prefetch.RdmaSim.Allocator.{remote_base}
use swap_prefetch.AddressTranslation.{
  Region, Translator, not_converted, find_region, covers_local, make_region,
  register_address_region, convert_local_to_remote_pointer, is_valid_local_pointer,
  is_valid_remote_pointer, address_translator_init,
}
use swap_prefetch.AddressTranslation.Lookup.{IsRegion}
use swap_prefetch.AddressTranslation.Update.{Clear, based}
use swap_prefetch.AddressTranslation.Regions.{IsTranslator, is_valid_remote_pointer-remote_base}
use swap_prefetch.AddressTranslation.Register.{Registered, register_address_region_lem}

abbrev pub one_region : Translator
one_region = record {
  regions =
      record {
        local_base = 0x7f00_0000_1000;
        local_end = 0x7f00_0000_2000;
        remote_base = 0x40_0000_0000;
        size = 4096;
        active = true;
      }
      ∷ [];
  local_heap_base = 0x7f00_0000_0000;
  local_heap_end = 0x7fff_ffff_ffff_ffff;
  remote_heap_base = 0x20_0000_0000;
  remote_heap_end = 0x3f_ffff_ffff;
  initialized = true;
}

pub one_region-IsTranslator : IsTranslator one_region
one_region-IsTranslator = record {
  initialized = refl;
  regular = (
    record {
      active = refl;
      local_end = refl;
      local_fits = (omega arith, omega arith);
      remote_fits = (omega arith, omega arith);
      some_bytes = omega arith;
    },
    tt,
    tt,
  );
}

pub is_valid_local_pointer-one_region : is_valid_local_pointer 0x7f00_0000_1008 one_region ≡ true
unfolding is_valid_local_pointer
is_valid_local_pointer-one_region = refl

pub convert_local-one_region :
    convert_local_to_remote_pointer 0x7f00_0000_1008 one_region ≢ not_converted
unfolding convert_local_to_remote_pointer find_region covers_local
convert_local-one_region = λ h. ground (arith, h)

abbrev second : Region
second = make_region 0x7f00_0000_3000 4096 0x40_0000_1000

second-IsRegion : IsRegion second
unfolding make_region
second-IsRegion = record {
  active = refl;
  local_end = refl;
  local_fits = (omega arith, omega arith);
  remote_fits = (omega arith, omega arith);
  some_bytes = omega arith;
}

second-Clear : Clear second one_region.regions
unfolding make_region
second-Clear = ((λ _. (inl (omega arith), inl (omega arith))), tt)

register_address_region_lem_example :
    let (r, t') = register_address_region true 0x7f00_0000_3000 4096 0x40_0000_1000 one_region in
    ((true ≡ false)
      × (find_region (based 0x7f00_0000_3000) one_region.regions ≡ none)
      × (r ≡ err enomem)
      × (t' ≡ one_region))
    ⊎ (((true ≡ true)
          ⊎ ((s : Region) × (find_region (based 0x7f00_0000_3000) one_region.regions ≡ some s)))
        × (r ≡ ok tt)
        × Registered second one_region t')
register_address_region_lem_example =
    register_address_region_lem true one_region 0x7f00_0000_3000 4096 0x40_0000_1000
      one_region-IsTranslator second-IsRegion second-Clear

is_valid_remote_pointer-remote_base_example :
    is_valid_remote_pointer
      (remote_base + 4096)
      (address_translator_init (record one_region { initialized = false }))
    ≡ false
is_valid_remote_pointer-remote_base_example =
    is_valid_remote_pointer-remote_base (record one_region { initialized = false }) 4096 refl
