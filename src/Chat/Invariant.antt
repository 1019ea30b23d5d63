-- ===== src/Chat/Invariant.antt =====
-- What holds of the array of clients between two operations of server_poll.c and server_select.c.
use zhone_engineering_academ.Common.{
  ℕ, zero, suc, ◌<◌, ◌≡◌, subst, ◌∙◌, false, some, List, [], ◌∷◌, is_neg, length, set, get_elem?,
  length-set,
}
use zhone_engineering_academ.CText.{has_byte}
use zhone_engineering_academ.Chat.Types.{Client, max_clients, name_size}
use zhone_engineering_academ.Chat.Slots.{
  fds, AreDistinct, IsFresh, fds-set, fds-set_self, AreDistinct-set,
}

-- A name that `char name[30]` holds with its terminator.
abbrev pub IsName : List ℕ → Type 0
IsName name = (length name < name_size) × (has_byte 0 name ≡ false)

-- A slot that is not in use may hold anything.
abbrev pub IsNamed : Client → Type 0
IsNamed c = is_neg c.fd ≡ false → IsName c.name

abbrev pub AreNamed : List Client → Type 0
AreNamed [] = Unit
AreNamed (c ∷ cs) = IsNamed c × AreNamed cs

pub record IsValid (clients : List Client) : Type 0 where
  pub size : length clients ≡ max_clients
  pub distinct : AreDistinct (fds clients)
  pub named : AreNamed clients

AreNamed-set :
    (cs : List Client) (i : ℕ) (c : Client) → AreNamed cs → IsNamed c → AreNamed (set cs i c)
AreNamed-set [] i c all new = tt
AreNamed-set (x ∷ cs) zero c all new = (new, all.1)
AreNamed-set (x ∷ cs) (suc i) c all new = (all.0, AreNamed-set cs i c all.1 new)

pub AreNamed-get :
    (cs : List Client) (i : ℕ) {c : Client} → AreNamed cs → get_elem? cs i ≡ some c → IsNamed c
AreNamed-get [] i all e = cc
AreNamed-get (x ∷ cs) zero {c} all e = let same : x ≡ c = cc in subst IsNamed same all.0
AreNamed-get (x ∷ cs) (suc i) all e = AreNamed-get cs i all.1 e

module _ {clients : List Client} (v : IsValid clients) (i : ℕ) where
  -- A slot may be given to a descriptor that no slot has.
  pub IsValid-set :
      (c : Client) → IsFresh c.fd (fds clients) → IsNamed c → IsValid (set clients i c)
  IsValid-set c fresh named = record {
    size = length-set clients i c ∙ v.size;
    distinct = rw fds-set (AreDistinct-set (fds clients) i c.fd v.distinct fresh);
    named = AreNamed-set clients i c v.named named;
  }

  -- A client may be changed that keeps its descriptor.
  pub IsValid-set_self :
      {c : Client} (c' : Client)
      → get_elem? clients i ≡ some c
      → c'.fd ≡ c.fd
      → IsNamed c'
      → IsValid (set clients i c')
  IsValid-set_self c' at_i same named = record {
    size = length-set clients i c' ∙ v.size;
    distinct = rw (fds-set_self clients i c' at_i same) v.distinct;
    named = AreNamed-set clients i c' v.named named;
  }
