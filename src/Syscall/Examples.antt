-- ===== src/Syscall/Examples.antt =====
-- A process of 64 bytes whose first argument is the address of the string "hi".
use dave.Common.{◌+◌, ◌<◌, ◌≤◌, ◌^◌, ◌≡◌, ◌↔◌, refl, arith, update, none, some}
use dave.Syscall.{User, fetchint, scan, fetchstr, argint, argptr, argstr}
use dave.Syscall.Arguments.{EndsAt, argptr_iff, argstr_iff}

abbrev caller : User
caller = record { sz = 64; esp = 16; mem = update (update (update (λ a. 0) 20 40) 40 104) 41 105 }

read_string : argstr 0 caller ≡ some (40, 2)
unfolding argstr argint fetchint fetchstr scan
read_string = refl

-- The block would reach beyond the process.
too_long : argptr 0 25 caller ≡ none
unfolding argptr argint fetchint
too_long = refl

argptr_example :
    (argptr 0 24 caller ≡ some 40)
    ↔ ((argint 0 caller ≡ some 40) × (24 < 2 ^ 31) × (40 < 64) × (40 + 24 ≤ 64))
argptr_example = argptr_iff 0 24 40 caller (omega arith) (omega arith)

argstr_example :
    (argstr 0 caller ≡ some (40, 2))
    ↔ ((argint 0 caller ≡ some 40) × (40 + 2 < 64) × EndsAt caller.mem 40 (40 + 2))
argstr_example = argstr_iff 0 40 2 caller
