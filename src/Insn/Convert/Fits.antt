-- ===== src/Insn/Convert/Fits.antt =====
-- The opcodes in the tables of `jit_insn_convert` fit together.
use libjit.Base.{◌≡◌, refl, Bool, true}
use libjit.Item.{Kind, same_kind}
use libjit.Item.Laws.{all_conversions, same_kind_lem}
use libjit.Insn.{convert_info}
use libjit.Insn.Tables.{table_of}
use libjit.Insn.Convert.Chains.{is_chain, last_kind}

pub convert_info-is_chain :
    (to from : Kind) (check : Bool) → is_chain from (convert_info to from check) ≡ true
unfolding table_of
convert_info-is_chain to from check =
    all_conversions (λ a b c. is_chain a (convert_info b a c)) refl from to check

pub convert_info-last_kind :
    (to from : Kind) (check : Bool) → last_kind from (convert_info to from check) ≡ to
unfolding table_of
convert_info-last_kind to from check =
    same_kind_lem _ _
      (all_conversions (λ a b c. same_kind (last_kind a (convert_info b a c)) b) refl from to check)
