-- ===== src/Examples/Builds.antt =====
-- The file for 64-bit ARM under Windows.
use unico.Common.{◌≡◌, refl, ◌⊎◌, false, some, none}
use unico.Context.Build.{
  Text, text, listed, same, first_part, Arch, arch_of, file_name, ends_with, contains, starts_with,
}
use unico.Context.Build.Files.{asm_files, has_file, system_of, file_name_lem}

abbrev target : Text
target = text "aarch64-pc-windows-msvc"

file_name_lem_example :
    ((arch_of (first_part target) ≡ none) × (file_name target ≡ none))
    ⊎ ((a : Arch) × (f : Text) × (arch_of (first_part target) ≡ some a)
        × (file_name target ≡ some f)
        × (listed f asm_files ≡ has_file a (system_of target)))
file_name_lem_example = file_name_lem target

-- The script does not panic, and the directory does not have the file.
chosen : file_name target ≡ some (text "arm64_aapcs_pe_masm.asm")
unfolding file_name arch_of first_part listed same ends_with contains starts_with
chosen = refl

missing : listed (text "arm64_aapcs_pe_masm.asm") asm_files ≡ false
unfolding listed same
missing = refl
