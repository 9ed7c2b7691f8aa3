-- ===== src/Core/Dtype.antt =====
-- modules/core/include/synapsefs/core/dtype.hpp and modules/core/src/dtype.cpp: the element types
-- of safetensors, their names and sizes.
use Prim.Native.String.{String}
use text.Mathlib.Text.{◌==◌ as str_eq}
use text.Mathlib.TextEquality.{eq_iff}
use synapse_fs.Prelude.{ℕ, ◌≡◌, refl, ap, Bool, true, false, arith, if◌then◌else◌}
use synapse_fs.Core.Error.{unsupported_dtype, Result, ok, err}

pub data DType : Type 0 where
  f16 bf16 f32 f64 i8 i16 i32 i64 u8 u16 u32 u64 bool : DType

unfoldable pub to_string : DType → String
to_string f16 = "F16"
to_string bf16 = "BF16"
to_string f32 = "F32"
to_string f64 = "F64"
to_string i8 = "I8"
to_string i16 = "I16"
to_string i32 = "I32"
to_string i64 = "I64"
to_string u8 = "U8"
to_string u16 = "U16"
to_string u32 = "U32"
to_string u64 = "U64"
to_string bool = "BOOL"

unfoldable pub dtype_from_string : String → Result DType
dtype_from_string s =
    if str_eq s "F16"
    then ok f16
    else if str_eq s "BF16"
    then ok bf16
    else if str_eq s "F32"
    then ok f32
    else if str_eq s "F64"
    then ok f64
    else if str_eq s "I8"
    then ok i8
    else if str_eq s "I16"
    then ok i16
    else if str_eq s "I32"
    then ok i32
    else if str_eq s "I64"
    then ok i64
    else if str_eq s "U8"
    then ok u8
    else if str_eq s "U16"
    then ok u16
    else if str_eq s "U32"
    then ok u32
    else if str_eq s "U64"
    then ok u64
    else if str_eq s "BOOL"
    then ok bool
    else err unsupported_dtype

unfoldable pub dtype_size : DType → ℕ
dtype_size bool = 1
dtype_size i8 = 1
dtype_size u8 = 1
dtype_size f16 = 2
dtype_size bf16 = 2
dtype_size i16 = 2
dtype_size u16 = 2
dtype_size f32 = 4
dtype_size i32 = 4
dtype_size u32 = 4
dtype_size f64 = 8
dtype_size i64 = 8
dtype_size u64 = 8

unfoldable pub is_float : DType → Bool
is_float f16 = true
is_float bf16 = true
is_float f32 = true
is_float f64 = true
is_float _ = false

-- The name of every element type reads back as that type.
pub dtype_from_string-to_string : (d : DType) → dtype_from_string (to_string d) ≡ ok d
unfolding dtype_from_string to_string
dtype_from_string-to_string f16 = refl
dtype_from_string-to_string d = refl

-- One test of the chain in `dtype_from_string`.
named :
    (s : String) (c d : DType) (rest : Result DType)
    → (rest ≡ ok d → s ≡ to_string d)
    → (if str_eq s (to_string c) then ok c else rest) ≡ ok d
    → s ≡ to_string d
named s c d rest later h = ground (arith, eq_iff s (to_string c), ap to_string {x = c} {y = d})

-- A string is read as a type only if it is that type's name, so each type has one name.
pub to_string-dtype_from_string :
    (s : String) (d : DType) → dtype_from_string s ≡ ok d → s ≡ to_string d
unfolding dtype_from_string
to_string-dtype_from_string s d h =
    unfold to_string in
    named s f16 d _
      (named s bf16 d _ (
        named s f32 d _ (
          named s f64 d _ (
            named s i8 d _ (
              named s i16 d _ (
                named s i32 d _ (
                  named s i64 d _ (
                    named s u8 d _ (
                      named s u16 d _
                        (named s u32 d _ (named s u64 d _ (named s bool d _ (λ q. cc)))))))))))))
      h
