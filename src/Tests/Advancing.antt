-- ===== src/Tests/Advancing.antt =====
-- Runs of model/diff/advance/advance.cpp.
use syncspirit.Prelude.{◌≡◌, refl, Bool, true, false, [], ◌∷◌, Option, none, some}
use syncspirit.File.Wire.{ProtoFile}
use syncspirit.Advance.{Advance, initialize, apply_impl}
use syncspirit.Advance.Stocked.{Stocked, initialize-Stocked}
use syncspirit.Advance.Local.{get_original}
use syncspirit.Advance.Original.{IsFirst, get_original-IsFirst}
use syncspirit.Tests.Indexes.{peer_folder, store, known_file, announced, applied}

abbrev source : ProtoFile
source = announced b'a' 6

-- The block of the file is known, and the one of the own file is an orphan.
initialize-Stocked_example :
    Stocked
      ((4 ∷ []) ∷ [])
      store
      (known_file ∷ [])
      (initialize 30 0 false true ((4 ∷ []) ∷ []) store (known_file ∷ []) source [])
initialize-Stocked_example =
    initialize-Stocked 30 0 false true ((4 ∷ []) ∷ []) store (known_file ∷ []) source []

abbrev advance : Advance
advance = record {
  proto_source = source;
  proto_local = record source { sequence = 0; name = b'n' ∷ [] };
  uuid = 30;
  new_blocks = [];
  removed_blocks = [];
}

abbrev is_made : {A : Type 0} → Option A → Bool
is_made none = false
is_made (some a) = true

apply_impl_made : is_made (apply_impl (λ hash. some 9) 20 advance applied) ≡ true
unfolding apply_impl syncspirit.File.Wire.fields_update syncspirit.Version.from_proto
    syncspirit.File.Store.assign_block syncspirit.File.Store.mark_local_available
apply_impl_made = refl

initialize_made :
    is_made (initialize 30 0 false true ((4 ∷ []) ∷ []) store (known_file ∷ []) source []) ≡ true
unfolding initialize syncspirit.Advance.collected syncspirit.Advance.collect
    syncspirit.IndexUpdate.make_strict_hash
initialize_made = refl

get_original-IsFirst_example :
    IsFirst store 6 source (peer_folder ∷ []) (get_original store 6 source (peer_folder ∷ []) none)
get_original-IsFirst_example = get_original-IsFirst store 6 source (peer_folder ∷ [])
