-- ===== src/Bootstrap/Gen/Windows.antt =====
-- scripts/scripts_windows.go: the scripts of a Windows node. Its tinc.conf and host's file have the
-- same templates as on other systems.
use tinc_boot.Prelude.{ℕ, ◌-◌, ◌^◌, List, [], ◌∷◌, ◌++◌, ltb, if◌then◌else◌}
use tinc_boot.Text.{Text, codes}
use tinc_boot.Bootstrap.Gen.Files.{unlines, show_ip}

-- The bytes of `net.CIDRMask(ones, 32)`, from the byte whose first bit is the given one.
unfoldable pub mask_byte : ℕ → ℕ → ℕ
mask_byte ones first =
    if ltb ones first
    then 0
    else if ltb (ones - first) 8
    then 256 - 2 ^ (8 - (ones - first))
    else 255

unfoldable pub cidr_mask : ℕ → List ℕ
unfolding mask_byte
cidr_mask ones = mask_byte ones 0 ∷ mask_byte ones 8 ∷ mask_byte ones 16 ∷ mask_byte ones 24 ∷ []

-- `maskIpV4AsSubnet`, which does not read its argument.
unfoldable pub mask_ip_v4_as_subnet : ℕ → Text
unfolding cidr_mask
mask_ip_v4_as_subnet bits = show_ip (cidr_mask 16)

quote : Text → Text
quote text = b'"' ∷ text ++ b'"' ∷ []

-- `TincUp`
unfoldable pub windows_tinc_up : Text → ℕ → Text → Text
unfolding quote
windows_tinc_up addr mask bin = unlines (
    []
    ∷ (codes "netsh interface ipv4 set address name="
        ++ (quote (codes "%INTERFACE%")
            ++ (codes " static "
                ++ (addr
                    ++ (codes " " ++ (mask_ip_v4_as_subnet mask ++ codes " store=persistent"))))))
    ∷ (codes "cd " ++ quote (codes "%~dp0"))
    ∷ (codes "start /B " ++ (quote [] ++ (codes " " ++ (quote bin ++ codes " monitor"))))
    ∷ [])

-- `TincDown`
unfoldable pub windows_tinc_down : Text → Text
unfolding quote
windows_tinc_down bin = unlines ([] ∷ (quote bin ++ codes " kill") ∷ [])

-- `SubnetUp`
unfoldable pub windows_subnet_up : Text → Text
unfolding quote
windows_subnet_up bin = unlines ([] ∷ (quote bin ++ codes " watch") ∷ [])

-- `SubnetDown`
unfoldable pub windows_subnet_down : Text → Text
unfolding quote
windows_subnet_down bin = unlines ([] ∷ (quote bin ++ codes " forget") ∷ [])
