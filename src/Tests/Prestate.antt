-- ===== src/Tests/Prestate.antt =====
-- The storage view of a slot that is read twice and of a slot that is written for the first time.
use eravm_airbender_verifier.Common.{
  ◌*◌, ◌^◌, ◌≡◌, refl, true, false, List, [], ◌∷◌, none, some, ok,
}
use eravm_airbender_verifier.Bytes.{be_value, le_bytes}
use eravm_airbender_verifier.Witness.Defs.{StorageLogMetadata}
use eravm_airbender_verifier.Verifier.Defs.{View, build_view_from_merkle_paths}
use eravm_airbender_verifier.Verifier.Prestate.{AllClaimed, build_view_from_merkle_paths-AllClaimed}

abbrev reading : StorageLogMetadata
reading = record {
  root_hash = 1;
  is_write = false;
  first_write = false;
  merkle_paths = [];
  leaf_hashed_key = 2 ^ 248;
  leaf_enumeration_index = 3;
  value_written = 0;
  value_read = 7;
}

abbrev writing : StorageLogMetadata
writing = record {
  root_hash = 1;
  is_write = true;
  first_write = true;
  merkle_paths = [];
  leaf_hashed_key = 2 * 2 ^ 248;
  leaf_enumeration_index = 4;
  value_written = 9;
  value_read = 0;
}

abbrev entries : List StorageLogMetadata
entries = reading ∷ writing ∷ reading ∷ []

abbrev view : View
view = (2, none) ∷ (1, some (7, 3)) ∷ []

view_built : build_view_from_merkle_paths entries ≡ ok view
unfolding build_view_from_merkle_paths be_value le_bytes
view_built = refl

build_view_from_merkle_paths-AllClaimed_example : AllClaimed view entries
build_view_from_merkle_paths-AllClaimed_example =
    build_view_from_merkle_paths-AllClaimed entries view view_built
