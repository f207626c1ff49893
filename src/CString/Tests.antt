-- ===== src/CString/Tests.antt =====
-- Runs of lib/string.c and the witnesses of its theorems. 97, 98, 99 are `a`, `b`, `c`.
use exscape_os.Prelude.{
  ℕ, ◌+◌, ◌-◌, ◌≡◌, ◌↔◌, pos, refl, true, List, [], ◌∷◌, ◌++◌, some, none, arith, is_some, length,
  take, drop,
}
use exscape_os.CString.{
  strcmp, strlcpy, strlcat, strspn, strcspn, strstr, strstr_from, agree, strtok_r, strchr,
  find_char, strlen, strrchr, find_back, trim, skip_spaces, skip_back, store, isspace,
}
use exscape_os.CString.Compare.{IsText, strcmp-zero}
use exscape_os.CString.Copy.{strlcpy-take, strlcat-take}
use exscape_os.CString.Search.{strstr-is_some}

abbrev ab : List ℕ
ab = 97 ∷ 98 ∷ []

abbrev abc : List ℕ
abc = 97 ∷ 98 ∷ 99 ∷ []

ab-IsText : IsText ab
ab-IsText = ground arith

abc-IsText : IsText abc
abc-IsText = ground arith

abbrev object : List ℕ
object = 7 ∷ 7 ∷ 7 ∷ 7 ∷ []

strlcpy-take_example :
    strlcpy object (abc ++ 0 ∷ []) 3
    ≡ some (take (3 - 1) abc ++ 0 ∷ drop (length (take (3 - 1) abc) + 1) object, length abc)
strlcpy-take_example = strlcpy-take object abc [] 3 abc-IsText (omega arith) (omega arith)

strlcat-take_example :
    strlcat (ab ++ 0 ∷ object) (abc ++ 0 ∷ []) 5
    ≡ some (
      ab
          ++ (take (5 - length ab - 1) abc
              ++ 0 ∷ drop (length (take (5 - length ab - 1) abc)) object),
      length ab + length abc,
    )
strlcat-take_example =
    strlcat-take ab object abc [] 5 ab-IsText abc-IsText (omega arith) (omega arith)

abbrev bc : List ℕ
bc = 98 ∷ 99 ∷ []

-- `bc` in `abc`
found_run : strstr (abc ++ 0 ∷ []) (bc ++ 0 ∷ []) ≡ some (some 1)
unfolding strstr strstr_from agree
found_run = refl

strstr-is_some_example : is_some (strstr (abc ++ 0 ∷ []) (ab ++ 0 ∷ [])) ≡ true
strstr-is_some_example = strstr-is_some abc ab [] [] abc-IsText ab-IsText

-- `aab` is in `aaab`, but is not found: a mismatch does not go back behind the match's start.
not_found_run : strstr (97 ∷ 97 ∷ 97 ∷ 98 ∷ 0 ∷ []) (97 ∷ 97 ∷ 98 ∷ 0 ∷ []) ≡ some none
unfolding strstr strstr_from agree
not_found_run = refl

-- `/a` with the delimiter `/`
strtok_r_run :
    strtok_r (47 ∷ 97 ∷ 47 ∷ 98 ∷ 0 ∷ []) (47 ∷ 0 ∷ [])
    ≡ some (some 1, 47 ∷ 97 ∷ 0 ∷ 98 ∷ 0 ∷ [], 3)
unfolding strtok_r strspn strcspn strchr find_char
strtok_r_run = refl

trim_run : trim (32 ∷ 97 ∷ 32 ∷ 10 ∷ 0 ∷ []) ≡ some (1, 32 ∷ 97 ∷ 0 ∷ 10 ∷ 0 ∷ [])
unfolding trim strlen skip_spaces skip_back store isspace
trim_run = refl

strrchr_run : strrchr (97 ∷ 98 ∷ 97 ∷ 99 ∷ 0 ∷ []) 97 ≡ some (some 2)
unfolding strrchr strlen find_back
strrchr_run = refl

strcmp-zero_example : (strcmp (ab ++ 0 ∷ []) (abc ++ 0 ∷ []) ≡ some (pos 0)) ↔ (ab ≡ abc)
strcmp-zero_example = strcmp-zero ab abc [] [] ab-IsText abc-IsText
