-- ===== src/Kernel/Address.antt =====
-- The gateway's address from the build environment (kernel/src/net/mesh.rs, `gateway_addr`). The two
-- variables are arguments.
use apex_os_rv.Prelude.{
  ℕ, zero, suc, ◌<◌, ◌≡◌, refl, ap, ◌∙◌, Option, none, some, List, [], ◌∷◌, ◌++◌, Text, unwrap_or,
  Outcome, returned, panicked, and_then, expect, arith,
}
use apex_os_rv.Str.Decimal.{decimal, parse, split}
use apex_os_rv.Str.Decimal.Reads.{decimal-All, parse-decimal, split-digits, split-digits_last}

abbrev pub default_ip : List ℕ
default_ip = 10 ∷ 0 ∷ 2 ∷ 2 ∷ []

-- `GATEWAY_PORT`
abbrev pub gateway_port : ℕ
gateway_port = 9601

-- The loop over so many slots; a piece that is missing or no octet panics, and more pieces are not read.
unfoldable pub octets : ℕ → List Text → Outcome (List ℕ)
octets zero pieces = returned []
octets (suc slots) [] = panicked
octets (suc slots) (p ∷ pieces) =
    and_then (expect (parse 255 p))
      (λ octet. and_then (octets slots pieces) (λ rest. returned (octet ∷ rest)))

unfoldable pub ip_of : Option Text → Outcome (List ℕ)
ip_of none = returned default_ip
ip_of (some s) = octets 4 (split b'.' s)

unfoldable pub port_of : Option Text → ℕ
port_of none = gateway_port
port_of (some s) = unwrap_or (parse 65535 s) gateway_port

unfoldable pub gateway_addr : Option Text → Option Text → Outcome (List ℕ × ℕ)
gateway_addr ip port = and_then (ip_of ip) (λ octets. returned (octets, port_of port))

abbrev pub dotted : ℕ → ℕ → ℕ → ℕ → Text
dotted a b c d = decimal a ++ (b'.' ∷ (decimal b ++ (b'.' ∷ (decimal c ++ (b'.' ∷ decimal d)))))

octets-zero : octets 0 [] ≡ returned []
unfolding octets
octets-zero = refl

octets-suc :
    (slots n : ℕ) (pieces : List Text) (rest : List ℕ)
    → n < 256
    → octets slots pieces ≡ returned rest
    → octets (suc slots) (decimal n ∷ pieces) ≡ returned (n ∷ rest)
unfolding octets
octets-suc slots n pieces rest h e = rw (parse-decimal 255 n (omega arith) (omega arith), e) refl

split-dotted :
    (a b c d : ℕ) → split b'.' (dotted a b c d) ≡ decimal a ∷ decimal b ∷ decimal c ∷ decimal d ∷ []
split-dotted a b c d =
    split-digits (decimal a) _ (decimal-All a)
    ∙ ap (λ r. decimal a ∷ r)
        (split-digits (decimal b) _ (decimal-All b)
          ∙ ap (λ r. decimal b ∷ r)
              (split-digits (decimal c) _ (decimal-All c)
                ∙ ap (λ r. decimal c ∷ r) (split-digits_last (decimal d) (decimal-All d))))

-- With both variables set, to a dotted quad of octets and to a port as they are printed: the
-- address is these octets and this port.
pub gateway_addr-dotted :
    (a b c d port : ℕ)
    → a < 256
    → b < 256
    → c < 256
    → d < 256
    → port < 65536
    → gateway_addr (some (dotted a b c d)) (some (decimal port))
      ≡ returned (a ∷ b ∷ c ∷ d ∷ [], port)
unfolding gateway_addr ip_of port_of
gateway_addr-dotted a b c d port ha hb hc hd hp =
    let four : octets 4 (split b'.' (dotted a b c d)) ≡ returned (a ∷ b ∷ c ∷ d ∷ []) =
      ap (octets 4) (split-dotted a b c d)
      ∙ octets-suc 3 a _ _ ha
          (octets-suc 2 b _ _ hb (octets-suc 1 c _ _ hc (octets-suc 0 d _ _ hd octets-zero))) in
    rw (four, parse-decimal 65535 port (omega arith) (omega arith)) refl
