-- ===== src/Container/Formats/Tests.antt =====
-- Texts that the formats take and refuse.
use oraja_traning.Prelude.{◌≡◌, refl, true, false}
use oraja_traning.Prelude.Text.{codes}
use oraja_traning.Container.Formats.{is_uuid, is_object_key, replace_z}

uuid_taken : is_uuid (codes "0192a3b4-c5d6-7e8f-9a0b-1c2d3e4f5061") ≡ true
unfolding is_uuid
uuid_taken = refl

uuid_version_refused : is_uuid (codes "0192a3b4-c5d6-4e8f-9a0b-1c2d3e4f5061") ≡ false
unfolding is_uuid
uuid_version_refused = refl

parent_refused :
    (is_object_key (codes "a/../b") ≡ false)
    × (is_object_key (codes "a/..") ≡ false)
    × (is_object_key (codes "a/..b") ≡ true)
unfolding is_object_key
parent_refused = (refl, refl, refl)

zone_written : replace_z (codes "00Z") ≡ codes "00+00:00"
unfolding replace_z
zone_written = refl
