-- ===== src/CString/Tests.antt =====
-- Witnesses on a memory with the string "ab" at 100 and at 200.
use microkernal.Common.{arith, if◌then◌else◌, inl, ◌==◌}
use microkernal.CString.{Memory, memmove, safestrcpy}
use microkernal.CString.Move.{Moved, memmove-Moved}
use microkernal.CString.Order.{IsBytes}
use microkernal.CString.Copy.{Holds, safestrcpy-Holds}

abbrev two_strings : Memory
two_strings a =
    if a == 100
    then 97
    else if a == 101
    then 98
    else if a == 200
    then 97
    else if a == 201
    then 98
    else 0

two_strings-IsBytes : IsBytes two_strings
two_strings-IsBytes a = ground arith

memmove-Moved_example : Moved two_strings 101 100 3 (memmove two_strings 101 100 3)
memmove-Moved_example = memmove-Moved two_strings 101 100 3 (omega arith) (omega arith)

safestrcpy-Holds_example : Holds two_strings 300 100 15 (safestrcpy two_strings 300 100 16)
safestrcpy-Holds_example =
    safestrcpy-Holds two_strings 300 100 15 (omega arith) (omega arith) (inl (omega arith))
