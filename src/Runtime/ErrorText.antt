-- ===== src/Runtime/ErrorText.antt =====
-- `pjsip_error` of src/runtime.rs: the message of an error of the shim. What `gmv_sip_error_message`
-- answers to a status, its own status and the buffer, is an argument.
use gmv_pjsip.Prelude.{ℕ, suc, List, [], ◌∷◌, ◌++◌, ◌==◌, if◌then◌else◌}
use gmv_pjsip.Prelude.Int.{ℤ, pos, negsuc, is_zero}
use gmv_pjsip.Text.{Text, codes, from_utf8_lossy, print_uint}

-- `CStr::from_ptr`: the bytes in front of the first NUL
before_nul : List ℕ → List ℕ
before_nul [] = []
before_nul (b ∷ bs) = if b == 0 then [] else b ∷ before_nul bs

-- `{}` of an `i32`
print_int : ℤ → Text
unfolding print_uint
print_int (pos n) = print_uint n
print_int (negsuc n) = b'-' ∷ print_uint (suc n)

error_message : (ℤ → ℤ × List ℕ) → ℤ → Text
unfolding before_nul from_utf8_lossy
error_message gmv_sip_error_message status =
    let (message_status, buffer) = gmv_sip_error_message status in
    if is_zero message_status
    then from_utf8_lossy (before_nul buffer)
    else codes "unknown PJPROJECT error"

unfoldable pub pjsip_error_text : (ℤ → ℤ × List ℕ) → Text → ℤ → Text
unfolding error_message print_int
pjsip_error_text gmv_sip_error_message operation status =
    codes "PJSIP operation `"
    ++ operation
    ++ codes "` failed: status="
    ++ print_int status
    ++ codes ", message="
    ++ error_message gmv_sip_error_message status
