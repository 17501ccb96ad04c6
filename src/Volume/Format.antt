-- ===== src/Volume/Format.antt =====
-- singlefile-FS/singlefilemakefs.c: what a run of the formatter that succeeds leaves on the device.
use aos_project.Base.{
  ℕ, ◌≡◌, refl, ap, ◌∙◌, ◌≢◌, false, not, arith, ◌==◌, if-cases, get_or, ℤ, pos, negsuc,
}
use aos_project.Volume.{
  Image, Tool, write_at, equals, file_body, sb_bytes, inode_bytes, write_body, write_padding,
  write_inode, makefs, le_bytes, le_value, u64_at, magic, disk_of,
}
use aos_project.SingleFile.Positions.{file_byte}
use aos_project.SingleFile.Read.{file_slice}

-- The device after four complete writes.
unfoldable pub formatted : (ℕ → ℕ) → Image → Image
unfolding write_at sb_bytes inode_bytes
formatted stack image =
    write_at
      (write_at
        (write_at (write_at image 0 4096 (sb_bytes stack) (pos 4096)) 4096 32 (inode_bytes stack)
          (pos 32))
        4128 4064 (λ i. 0) (pos 4064))
      8192 28 (λ i. get_or file_body i 0) (pos 28)

equals_lem : (r : ℤ) (n : ℕ) → not (equals r n) ≡ false → r ≡ pos n
equals_lem (pos m) n h = ground arith
equals_lem (negsuc m) n h = absurd (ground arith)

negsuc-ne-pos : (n : ℕ) → negsuc n ≢ pos 0
negsuc-ne-pos n e = absurd (ground arith)

module _ (t : Tool) where
  abbrev Gives : Image → Image × ℤ → Type 0
  Gives image r = r.1 ≡ pos 0 → r.0 ≡ image

  write_body_lem :
      (image : Image)
      → Gives (write_at image 8192 28 (λ i. get_or file_body i 0) (pos 28)) (write_body t image)
  unfolding write_body
  write_body_lem image =
      if-cases (Gives _) (not (equals (t.write 3) 28)) _ _ (λ e z. absurd (negsuc-ne-pos 0 z))
        (λ e z.
          ap (write_at image 8192 28 (λ i. get_or file_body i 0)) (equals_lem (t.write 3) 28 e))

  write_padding_lem :
      (image : Image)
      → Gives
          (write_at
            (write_at image 4128 4064 (λ i. 0) (pos 4064))
            8192
            28
            (λ i. get_or file_body i 0)
            (pos 28))
          (write_padding t image)
  unfolding write_padding
  write_padding_lem image =
      if-cases (Gives _) (not t.malloc) _ _ (λ e z. absurd (negsuc-ne-pos 0 z))
        (λ e.
          if-cases (Gives _) (not (equals (t.write 2) 4064)) _ _ (λ e z. absurd (negsuc-ne-pos 0 z))
            (λ e z.
              write_body_lem (write_at image 4128 4064 (λ i. 0) (t.write 2)) z
              ∙ ap
                  (λ r.
                    write_at (write_at image 4128 4064 (λ i. 0) r) 8192 28
                      (λ i. get_or file_body i 0) (pos 28))
                  (equals_lem (t.write 2) 4064 e)))

  write_inode_lem :
      (image : Image)
      → Gives
          (write_at
            (write_at
              (write_at image 4096 32 (inode_bytes t.stack) (pos 32))
              4128
              4064
              (λ i. 0)
              (pos 4064))
            8192
            28
            (λ i. get_or file_body i 0)
            (pos 28))
          (write_inode t image)
  unfolding write_inode
  write_inode_lem image =
      if-cases (Gives _) (not (equals (t.write 1) 32)) _ _ (λ e z. absurd (negsuc-ne-pos 0 z))
        (λ e z.
          write_padding_lem (write_at image 4096 32 (inode_bytes t.stack) (t.write 1)) z
          ∙ ap
              (λ r.
                write_at
                  (write_at (write_at image 4096 32 (inode_bytes t.stack) r) 4128 4064 (λ i. 0)
                    (pos 4064))
                  8192 28 (λ i. get_or file_body i 0) (pos 28))
              (equals_lem (t.write 1) 32 e))

  -- A run that returns 0, and whose first write does not write nothing, has written all four parts.
  pub makefs-formatted :
      (image : Image)
      → t.write 0 ≢ pos 0
      → (makefs t image).1 ≡ pos 0
      → (makefs t image).0 ≡ formatted t.stack image
  unfolding makefs formatted
  makefs-formatted image h =
      if-cases (Gives _) (not (t.argc == 2)) _ _ (λ e z. absurd (negsuc-ne-pos 0 z))
        (λ e.
          if-cases (Gives _) (not t.opens) _ _ (λ e z. absurd (negsuc-ne-pos 0 z))
            (λ e.
              if-cases (Gives _) (not (equals (t.write 0) 4096)) _ _ (λ e z. absurd (h z))
                (λ e z.
                  write_inode_lem (write_at image 0 4096 (sb_bytes t.stack) (t.write 0)) z
                  ∙ ap
                      (λ r.
                        write_at
                          (write_at
                            (write_at (write_at image 0 4096 (sb_bytes t.stack) r) 4096 32
                              (inode_bytes t.stack) (pos 32))
                            4128 4064 (λ i. 0) (pos 4064))
                          8192 28 (λ i. get_or file_body i 0) (pos 28))
                      (equals_lem (t.write 0) 4096 e))))

pub formatted-magic :
    (stack : ℕ → ℕ) (image : Image) → u64_at (disk_of (formatted stack image) 0) 8 ≡ magic
unfolding formatted disk_of le_value write_at sb_bytes le_bytes
formatted-magic stack image = refl

pub formatted-size :
    (stack : ℕ → ℕ) (image : Image) → u64_at (disk_of (formatted stack image) 1) 24 ≡ 28
unfolding formatted disk_of le_value write_at inode_bytes le_bytes
formatted-size stack image = refl

pub formatted-body :
    (stack : ℕ → ℕ) (image : Image) → file_slice (disk_of (formatted stack image)) 0 28 ≡ file_body
unfolding formatted disk_of write_at file_slice file_byte
formatted-body stack image = refl
