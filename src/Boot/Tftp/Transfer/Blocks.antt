-- ===== src/Boot/Tftp/Transfer/Blocks.antt =====
-- How the data packets of src/boot/tftp.rs divide the contents.
use rescriptum.Prelude.{
  ℕ, ◌+◌, ◌-◌, ◌≤◌, true, false, List, [], ◌∷◌, ◌++◌, Bytes, length, drop, ◌≡◌, sym, ap, ◌∙◌, arith,
  length-take, length-drop, take-append-drop, drop-drop, append_assoc, append-nil, tests,
}
use rescriptum.Boot.Tftp.Packet.{data_packet}
use rescriptum.Boot.Tftp.Transfer.{block_end, chunk, is_last}

-- what a client keeps of a data packet, and of all that it acknowledged
abbrev pub payload : Bytes → Bytes
payload packet = drop 4 packet

abbrev pub received : List Bytes → Bytes
received [] = []
received (p ∷ ps) = payload p ++ received ps

pub received-concat :
    (ps : List Bytes) (block : ℕ) (data_bytes : Bytes)
    → received (ps ++ data_packet block data_bytes ∷ []) ≡ received ps ++ data_bytes
unfolding data_packet
received-concat [] block data_bytes = append-nil data_bytes
received-concat (p ∷ ps) block data_bytes =
    ap (λ x. payload p ++ x) (received-concat ps block data_bytes)
    ∙ sym (append_assoc (payload p) (received ps) data_bytes)

module _ (size : ℕ) (contents : Bytes) (sent : ℕ) (inside : sent ≤ length contents) where
  pub chunk-drop :
      chunk size contents sent ++ drop (block_end size contents sent) contents ≡ drop sent contents
  chunk-drop =
      let here : sent + (block_end size contents sent - sent) ≡ block_end size contents sent =
        omega arith in
      ap (λ x. chunk size contents sent ++ x)
        (sym (
          drop-drop (block_end size contents sent - sent) sent contents
          ∙ ap (λ n. drop n contents) here))
      ∙ take-append-drop (block_end size contents sent - sent) (drop sent contents)

  pub length-chunk : length (chunk size contents sent) ≡ block_end size contents sent - sent
  length-chunk = omega (
    arith,
    length-take (block_end size contents sent - sent) (drop sent contents),
    length-drop sent contents,
  )

  pub chunk-le-size : length (chunk size contents sent) ≤ size
  chunk-le-size = omega (arith, length-chunk)

  -- a short chunk is the end of the contents
  pub last_chunk :
      is_last size contents sent ≡ true → block_end size contents sent ≡ length contents
  last_chunk h = omega (tests, length-chunk, h)

  pub full_chunk :
      is_last size contents sent ≡ false
      → (block_end size contents sent ≡ sent + size)
        × (block_end size contents sent ≤ length contents)
  full_chunk h = omega (tests, length-chunk, h)
