-- ===== src/Echo/Setup/Address.antt =====
-- The array `serv_ip` of the clients of section-07/lab after `strcpy`.
use mathlib.Core.List.{append-nil, append_assoc}
use zhone_engineering_academ.Common.{
  ℕ, ◌<◌, ◌≤◌, ◌≡◌, ap, ◌∙◌, none, some, false, List, [], ◌∷◌, ◌++◌, arith, length, drop, lt→ltb,
  ltb,
}
use zhone_engineering_academ.CText.{c_string, has_byte, overwrite}
use zhone_engineering_academ.CText.Memory.{c_string-append}
use zhone_engineering_academ.Echo.Setup.{strcpy_ip}

pub strcpy_ip-fits :
    (serv_ip text : List ℕ)
    → length text < 15
    → strcpy_ip serv_ip text ≡ some (overwrite serv_ip (text ++ 0 ∷ []))
unfolding strcpy_ip
strcpy_ip-fits serv_ip text fits = rw (lt→ltb _ _ fits)

pub strcpy_ip-overflows : (serv_ip text : List ℕ) → 15 ≤ length text → strcpy_ip serv_ip text ≡ none
unfolding strcpy_ip
strcpy_ip-overflows serv_ip text long =
    let past : ltb (length text) 15 ≡ false = ground arith in rw past

pub c_string-copied :
    (serv_ip text : List ℕ)
    → has_byte 0 text ≡ false
    → c_string (overwrite serv_ip (text ++ 0 ∷ [])) ≡ text
c_string-copied serv_ip text clean =
    ap c_string (append_assoc text (0 ∷ []) (drop (length (text ++ 0 ∷ [])) serv_ip))
    ∙ c_string-append text (0 ∷ drop (length (text ++ 0 ∷ [])) serv_ip) clean
    ∙ append-nil text
