-- ===== src/Utils/Tests.antt =====
-- The theorems about src/kernel/utils.c at sample texts.
use os_eojin.Base.{◌≡◌, refl, false, none, ◌++◌, codes, replicate}
use os_eojin.Utils.{hex_to_ascii, get_next_token}
use os_eojin.Utils.Text.{get_next_token-none}

hex_runs : hex_to_ascii 0xbeef ≡ codes "0x000000000000beef"
unfolding hex_to_ascii
hex_runs = refl

get_next_token-none_example : get_next_token (codes "ls" ++ replicate 2 b' ') 2 ≡ (false, none, 4)
get_next_token-none_example = get_next_token-none (codes "ls") 2
