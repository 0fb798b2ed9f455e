-- ===== src/Util/Size/Tests.antt =====
-- The positions of both ciphers' chunk sizes.
use cryptomator_rs.Common.{◌+◌, ◌≤◌, ◌≡◌, refl, replicate, ok, arith}
use cryptomator_rs.Crypto.SivCtrMac
use cryptomator_rs.Crypto.SivGcm
use cryptomator_rs.Crypto.{FileCryptor}
use cryptomator_rs.Key.{MasterKey}
use cryptomator_rs.Primitives.Toy.{toy, toy-Laws}
use cryptomator_rs.Util.Size.Position.{
  encrypted_len, encrypted_pos, get_cleartext_size-encrypted_pos, encrypted_len_mono,
}
use cryptomator_rs.Util.Size.{get_cleartext_size}

abbrev key : MasterKey
key = record { bytes = replicate 64 1 }

abbrev gcm : FileCryptor
gcm = SivGcm.file_cryptor toy key

abbrev ctr_mac : FileCryptor
ctr_mac = SivCtrMac.file_cryptor toy key

encrypted_pos_test : encrypted_pos gcm 32769 ≡ 68 + 32796 + 29
unfolding encrypted_len
encrypted_pos_test = refl

get_cleartext_size_example : get_cleartext_size gcm (encrypted_pos gcm 32769) ≡ ok 32769
get_cleartext_size_example =
    get_cleartext_size-encrypted_pos gcm (SivGcm.Bounds.file_cryptor-IsLawful toy toy-Laws key)
      32769 (omega arith)

encrypted_len_mono_example : encrypted_len ctr_mac 32768 ≤ encrypted_len ctr_mac 32769
encrypted_len_mono_example =
    encrypted_len_mono ctr_mac (SivCtrMac.Bounds.file_cryptor-IsLawful toy toy-Laws key) 32768 32769
      (omega arith)
