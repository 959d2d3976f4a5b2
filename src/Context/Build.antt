-- ===== src/Context/Build.antt =====
-- context/build.rs: which assembly file of Boost.Context is compiled for a target. A text is the list of
-- its characters' codes.
pub mod Files
use Prim.Native.Char.{code}
use Prim.Native.String.{String}
use unico.Common.{
  ℕ, Bool, true, false, ◌&&◌, ◌||◌, ◌==◌, if◌then◌else◌, List, [], ◌∷◌, ◌++◌, Option, none, some,
}

abbrev pub Text : Type 0
Text = List ℕ

abbrev pub text : String → Text
text String.[] = []
text (String.◌∷◌ c s) = code c ∷ text s

unfoldable pub same : Text → Text → Bool
same [] [] = true
same (c ∷ s) (d ∷ t) = c == d && same s t
same _ _ = false

unfoldable pub listed : Text → List Text → Bool
listed s [] = false
listed s (t ∷ ts) = same s t || listed s ts

unfoldable pub starts_with : Text → Text → Bool
starts_with [] s = true
starts_with (c ∷ p) (d ∷ s) = c == d && starts_with p s
starts_with (c ∷ p) [] = false

unfoldable pub ends_with : Text → Text → Bool
ends_with p [] = same p []
ends_with p (c ∷ s) = same p (c ∷ s) || ends_with p s

unfoldable pub contains : Text → Text → Bool
contains p [] = starts_with p []
contains p (c ∷ s) = starts_with p (c ∷ s) || contains p s

-- `split('-').next()`
unfoldable pub first_part : Text → Text
first_part [] = []
first_part (c ∷ s) = let rest = first_part s in if c == b'-' then [] else c ∷ rest

pub data Arch : Type 0 where
  arm : Arch
  arm64 : Arch
  i386 : Arch
  mips32 : Arch
  x86_64 : Arch
  mips64 : Arch
  loongarch64 : Arch
  riscv64 : Arch
  s390x : Arch

abbrev pub arch_name : Arch → Text
arch_name arm = text "arm"
arch_name arm64 = text "arm64"
arch_name i386 = text "i386"
arch_name mips32 = text "mips32"
arch_name x86_64 = text "x86_64"
arch_name mips64 = text "mips64"
arch_name loongarch64 = text "loongarch64"
arch_name riscv64 = text "riscv64"
arch_name s390x = text "s390x"

-- The architecture; an unsupported one is a panic.
unfoldable pub arch_of : Text → Option Arch
arch_of s =
    if listed s (text "arm" ∷ text "armv7" ∷ text "armv7s" ∷ [])
    then some arm
    else if listed s (text "arm64" ∷ text "aarch64" ∷ [])
    then some arm64
    else if listed s (text "x86" ∷ text "i386" ∷ text "i486" ∷ text "i586" ∷ text "i686" ∷ [])
    then some i386
    else if listed s (text "mips" ∷ text "mipsel" ∷ [])
    then some mips32
    else if same s (text "x86_64")
    then some x86_64
    else if listed s (text "mips64" ∷ text "mips64el" ∷ [])
    then some mips64
    else if same s (text "loongarch64")
    then some loongarch64
    else if same s (text "riscv64gc")
    then some riscv64
    else if same s (text "s390x")
    then some s390x
    else none

abbrev pub abi : Arch → Bool → Text
abi arm is_win = text "aapcs"
abi arm64 is_win = text "aapcs"
abi mips32 is_win = text "o32"
abi mips64 is_win = text "n64"
abi _ is_win = if is_win then text "ms" else text "sysv"

abbrev pub format : Bool → Bool → Bool → Text
format is_win is_apple is_aix =
    if is_win
    then text "pe"
    else if is_apple
    then text "macho"
    else if is_aix
    then text "xcoff"
    else text "elf"

abbrev pub is_arm : Arch → Bool
is_arm arm = true
is_arm _ = false

-- The assembler, and the extension.
abbrev pub assembler : Arch → Bool → Bool → Text × Text
assembler arch is_win_msvc is_win_gnu =
    if is_win_msvc
    then (if is_arm arch then (text "armasm", text "asm") else (text "masm", text "asm"))
    else if is_win_gnu
    then (text "gas", text "asm")
    else (text "gas", text "S")

-- The file's name, from the architecture and what the script finds in the target.
abbrev pub file_for : Arch → Bool → Bool → Bool → Bool → Text
file_for arch is_win_gnu is_win_msvc is_apple is_aix =
    let is_win = is_win_gnu || is_win_msvc in
    let a = assembler arch is_win_msvc is_win_gnu in
    arch_name arch
    ++ text "_"
    ++ abi arch is_win
    ++ text "_"
    ++ format is_win is_apple is_aix
    ++ text "_"
    ++ a.0
    ++ text "."
    ++ a.1

-- The file that `build_boost` compiles; `none` is its panic.
unfoldable pub file_name : Text → Option Text
file_name target = elim (arch_of (first_part target)) [
  | none ↦ none
  | some arch ↦ some (
      file_for arch (ends_with (text "windows-gnu") target) (ends_with (text "windows-msvc") target)
        (contains (text "apple") target) (ends_with (text "aix") target))
]
