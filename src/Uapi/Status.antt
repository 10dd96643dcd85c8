-- ===== src/Uapi/Status.antt =====
-- cpu_uapi.h: the results of one execution; and the Linux error codes that the modules return.
use rpi_cpu_emulator_linux_d.Base.{ℤ, pos, negsuc}

abbrev pub success : ℤ
success = pos 0

abbrev pub halt : ℤ
halt = negsuc 0

abbrev pub pending_mem_read : ℤ
pending_mem_read = pos 1

abbrev pub pending_mem_write : ℤ
pending_mem_write = pos 2

abbrev pub pending_mmio_read : ℤ
pending_mmio_read = pos 3

-- -ENOMEM, -EFAULT, -ENODEV, -EINVAL and -ERESTARTSYS
abbrev pub enomem : ℤ
enomem = negsuc 11

abbrev pub efault : ℤ
efault = negsuc 13

abbrev pub enodev : ℤ
enodev = negsuc 18

abbrev pub einval : ℤ
einval = negsuc 21

abbrev pub erestartsys : ℤ
erestartsys = negsuc 511
