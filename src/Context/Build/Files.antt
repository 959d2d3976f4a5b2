-- ===== src/Context/Build/Files.antt =====
-- For which targets the chosen file is one of those in context/src/asm.
use unico.Common.{
  ◌≡◌, refl, ◌⊎◌, inl, inr, Bool, true, false, List, [], ◌∷◌, none, some, Option-cases,
  if◌then◌else◌,
}
use unico.Context.Build.{
  Text, text, same, listed, ends_with, contains, first_part, Arch, arm, arm64, i386, mips32, x86_64,
  mips64, loongarch64, riscv64, s390x, arch_of, file_for, file_name,
}

-- The files of context/src/asm.
abbrev pub asm_files : List Text
asm_files =
    text "arm64_aapcs_elf_gas.S"
    ∷ text "arm64_aapcs_macho_gas.S"
    ∷ text "arm64_aapcs_pe_armasm.asm"
    ∷ text "arm_aapcs_elf_gas.S"
    ∷ text "arm_aapcs_macho_gas.S"
    ∷ text "arm_aapcs_pe_armasm.asm"
    ∷ text "i386_ms_pe_clang_gas.S"
    ∷ text "i386_ms_pe_gas.asm"
    ∷ text "i386_ms_pe_masm.asm"
    ∷ text "i386_sysv_elf_gas.S"
    ∷ text "i386_sysv_macho_gas.S"
    ∷ text "loongarch64_sysv_elf_gas.S"
    ∷ text "mips32_o32_elf_gas.S"
    ∷ text "mips64_n64_elf_gas.S"
    ∷ text "riscv64_sysv_elf_gas.S"
    ∷ text "s390x_sysv_elf_gas.S"
    ∷ text "x86_64_ms_pe_clang_gas.S"
    ∷ text "x86_64_ms_pe_gas.asm"
    ∷ text "x86_64_ms_pe_masm.asm"
    ∷ text "x86_64_sysv_elf_gas.S"
    ∷ text "x86_64_sysv_macho_gas.S"
    ∷ []

-- The system of a target.
pub data System : Type 0 where
  msvc : System
  gnu : System
  apple : System
  aix : System
  other : System

abbrev pub system_from : Bool → Bool → Bool → Bool → System
system_from is_gnu is_msvc is_apple is_aix =
    if is_msvc
    then msvc
    else if is_gnu
    then gnu
    else if is_apple
    then apple
    else if is_aix
    then aix
    else other

abbrev pub system_of : Text → System
system_of target =
    system_from (ends_with (text "windows-gnu") target) (ends_with (text "windows-msvc") target)
      (contains (text "apple") target) (ends_with (text "aix") target)

-- Which architecture has a file for which system.
abbrev pub has_file : Arch → System → Bool
has_file arch other = true
has_file arch aix = false
has_file arm apple = true
has_file arm64 apple = true
has_file i386 apple = true
has_file x86_64 apple = true
has_file i386 gnu = true
has_file x86_64 gnu = true
has_file arm msvc = true
has_file i386 msvc = true
has_file x86_64 msvc = true
has_file _ _ = false

-- What holds for each combination that the script tells apart holds for all.
by_flags :
    (P : Bool → Bool → Bool → Bool → Type 0)
    → ((p x : Bool) → P true true p x)
    → ((p x : Bool) → P false true p x)
    → ((p x : Bool) → P true false p x)
    → ((x : Bool) → P false false true x)
    → P false false false true
    → P false false false false
    → (g m p x : Bool) → P g m p x
by_flags P a b c d e f true true p x = a p x
by_flags P a b c d e f false true p x = b p x
by_flags P a b c d e f true false p x = c p x
by_flags P a b c d e f false false true x = d x
by_flags P a b c d e f false false false true = e
by_flags P a b c d e f false false false false = f

abbrev Agrees : Arch → Bool → Bool → Bool → Bool → Type 0
Agrees a g m p x = listed (file_for a g m p x) asm_files ≡ has_file a (system_from g m p x)

all-Agrees : (a : Arch) (g m p x : Bool) → Agrees a g m p x
unfolding listed same
all-Agrees arm =
    by_flags (Agrees arm) (λ p x. refl) (λ p x. refl) (λ p x. refl) (λ x. refl) refl refl
all-Agrees arm64 =
    by_flags (Agrees arm64) (λ p x. refl) (λ p x. refl) (λ p x. refl) (λ x. refl) refl refl
all-Agrees i386 =
    by_flags (Agrees i386) (λ p x. refl) (λ p x. refl) (λ p x. refl) (λ x. refl) refl refl
all-Agrees mips32 =
    by_flags (Agrees mips32) (λ p x. refl) (λ p x. refl) (λ p x. refl) (λ x. refl) refl refl
all-Agrees x86_64 =
    by_flags (Agrees x86_64) (λ p x. refl) (λ p x. refl) (λ p x. refl) (λ x. refl) refl refl
all-Agrees mips64 =
    by_flags (Agrees mips64) (λ p x. refl) (λ p x. refl) (λ p x. refl) (λ x. refl) refl refl
all-Agrees loongarch64 =
    by_flags (Agrees loongarch64) (λ p x. refl) (λ p x. refl) (λ p x. refl) (λ x. refl) refl refl
all-Agrees riscv64 =
    by_flags (Agrees riscv64) (λ p x. refl) (λ p x. refl) (λ p x. refl) (λ x. refl) refl refl
all-Agrees s390x =
    by_flags (Agrees s390x) (λ p x. refl) (λ p x. refl) (λ p x. refl) (λ x. refl) refl refl

-- For every target the script either panics, exactly where the architecture is not supported, or
-- chooses a file, which the directory has exactly where the table says.
pub file_name_lem :
    (target : Text)
    → ((arch_of (first_part target) ≡ none) × (file_name target ≡ none))
      ⊎ ((a : Arch) × (f : Text) × (arch_of (first_part target) ≡ some a)
          × (file_name target ≡ some f)
          × (listed f asm_files ≡ has_file a (system_of target)))
unfolding file_name
file_name_lem target = elim (Option-cases (arch_of (first_part target))) [
  | inl e ↦ inl (e, rw (e, file_name) refl)
  | inr (a, e) ↦ inr (a, _, e, rw (e, file_name) refl, all-Agrees a _ _ _ _)
]
