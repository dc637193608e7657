-- ===== src/Registration/Address.antt =====
-- The address that a server registers is the one that a client connects to.
use kim_rpc.Prelude.{
  ℕ, ◌+◌, ◌%◌, ◌^◌, ◌≤◌, ◌<◌, ◌≡◌, refl, ap, ◌∙◌, Option, some, ◌∷◌, ◌++◌, arith, Bytes, find_byte,
  length, take, drop, drop-append, take-append, take-all, drop-add, stoi, to_string, pos, Without,
  find_byte-first,
}
use kim_rpc.Channel.{KimRpcChannel}
use kim_rpc.Channel.Calls.{Kernel, connect_host, connect_port, connect_to}
use kim_rpc.Registration.{address_text, address}
use kim_rpc.Registration.Decimal.{stoi-to_string}

-- The address of a server, as `ensureConnected` takes it apart: the IP without a colon and the port
-- come back as they were, provided that the text fits the 63 bytes that are kept of it.
pub connect_host-address :
    (k : Kernel) (ip : Bytes) (port : ℕ) (c : KimRpcChannel)
    → Without b':' ip
    → port < 2 ^ 16
    → length (address_text ip port) ≤ 63
    → connect_host k (address ip port) (find_byte b':' (address ip port)) c
      ≡ connect_to k (address ip port) ip port c
unfolding address
connect_host-address k ip port c w p fits =
    let whole : address ip port ≡ address_text ip port = take-all (address_text ip port) 63 fits in
    let digits = to_string (pos port) in
    let at : find_byte b':' (address ip port) ≡ some (length ip) =
      ap (find_byte b':') whole ∙ find_byte-first b':' ip digits w in
    let host : take (length ip) (address ip port) ≡ ip =
      ap (take (length ip)) whole ∙ take-append ip (b':' ∷ digits) (length ip) refl in
    let number : stoi (drop (length ip + 1) (address ip port)) ≡ some (pos port) =
      ap (λ (s : Bytes). stoi (drop (length ip + 1) s)) whole
      ∙ ap stoi (
          drop-add (length ip) 1 (ip ++ (b':' ∷ digits))
          ∙ ap (drop 1) (drop-append ip (b':' ∷ digits) (length ip) refl))
      ∙ stoi-to_string port (omega arith) in
    let same : port % 2 ^ 16 ≡ port = omega arith in
    ap (λ (o : Option ℕ). connect_host k (address ip port) o c) at
    ∙ ap
        (λ (h : Bytes).
          connect_port k (address ip port) h (stoi (drop (length ip + 1) (address ip port))) c)
        host
    ∙ ap (λ o. connect_port k (address ip port) ip o c) number
    ∙ ap (λ (q : ℕ). connect_to k (address ip port) ip q c) same
