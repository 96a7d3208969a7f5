-- ===== src/Sash/Mode/Tests.antt =====
-- Modes as they are listed.
use minilib_ports.Common.{◌+◌, ◌/◌, ◌%◌, ◌^◌, ◌*◌, ◌≡◌, refl, if◌then◌else◌, codes, get_or}
use minilib_ports.Sash.Mode.{mode_string}
use minilib_ports.Sash.Mode.Perms.{has_letter, type_of, perms_of, mode_string_lem}

listed :
    (mode_string (4 * 2 ^ 12 + 493) ≡ codes "drwxr-xr-x")
    × (mode_string (8 * 2 ^ 12 + 2 ^ 11 + 493) ≡ codes "-rwsr-xr-x")
    × (mode_string (4 * 2 ^ 12 + 2 ^ 9 + 511) ≡ codes "drwxrwxrwt")
    × (mode_string (8 * 2 ^ 12 + 2 ^ 10 + 420) ≡ codes "-rw-r-Sr--")
unfolding mode_string
listed = (refl, refl, refl, refl)

mode_string_lem_example :
    (perms_of (mode_string 16877) ≡ 16877 % 2 ^ 12)
    × (type_of (get_or (mode_string 16877) 0 0)
        ≡ (if has_letter (16877 / 2 ^ 12 % 16) then 16877 / 2 ^ 12 % 16 else 0))
mode_string_lem_example = mode_string_lem 16877
