-- ===== src/Tests/Keys.antt =====
-- The key file with stand-ins for Ed25519, HKDF and PEM.
use rmm.Base.{
  ◌≡◌, refl, [], ◌∷◌, ◌++◌, Bytes, codes, length, take, drop, replicate, take-append_length,
  drop-append_length, Option, none, some, true, false,
}
use rmm.Security.Platform.KeyFile.{
  PemBlock, KeyLibrary, KeyLibraryLaws, Disk, ok, err, invalid_file, new_platform,
  load_or_create_platform, generate_platform_key, write_key, load_after_create, create_write_fault,
}
use rmm.Tests.Samples.{total}

unfoldable pub pem_decode : Bytes → Option PemBlock
pem_decode [] = none
pem_decode (n ∷ s) = some (record { kind = take n s; body = drop n s })

abbrev pub keys : KeyLibrary
keys = record {
  generate_key = λ random. replicate 32 (total random);
  seed = λ key. key;
  public = λ key. take 8 key;
  key_from_seed = λ seed. seed;
  hkdf = λ secret salt info n. take n (secret ++ (salt ++ info));
  pem_encode = λ b. length b.kind ∷ (b.kind ++ b.body);
  pem_decode = pem_decode;
}

keys_laws : KeyLibraryLaws keys
unfolding pem_decode
keys_laws = record {
  length-seed = λ random. refl;
  key_from_seed-seed = λ random. refl;
  pem_decode-pem_encode =
      λ b. rw (take-append_length b.kind b.body, drop-append_length b.kind b.body) refl;
}

abbrev pub empty_disk : Disk
empty_disk = record {
  file = none;
  can_read = true;
  can_open = true;
  can_write = true;
  written = 0;
  random = some (codes "noise");
}

abbrev full_disk : Disk
full_disk = record empty_disk { can_write = false }

abbrev pub key_disk : Disk
key_disk = (load_or_create_platform keys empty_disk).1

load_after_create_example :
    load_or_create_platform keys key_disk
    ≡ (ok (new_platform keys (keys.generate_key (codes "noise"))), key_disk)
unfolding load_or_create_platform generate_platform_key write_key
load_after_create_example =
    load_after_create keys empty_disk key_disk
      (new_platform keys (keys.generate_key (codes "noise"))) keys_laws refl refl refl refl

create_write_fault_example :
    (load_or_create_platform keys (load_or_create_platform keys full_disk).1).0 ≡ err invalid_file
unfolding pem_decode
create_write_fault_example =
    create_write_fault keys full_disk (codes "noise") refl refl refl refl refl refl
