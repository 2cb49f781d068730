-- ===== src/OpcodeId.antt =====
-- mips-emulator/src/opcode_id.rs: the names of the opcodes.

pub data OpcodeId : Type 0 where
  op_add op_addu op_sub op_subu op_addi op_addiu op_and op_andi op_xor op_xori op_or op_ori op_nor
        op_lui op_slt op_slti op_sltiu op_sltu op_sll op_sllv op_sra op_srav op_srl op_srlv op_mult
        op_multu op_div op_divu op_mfhi op_mflo op_mthi op_mtlo op_beq op_bgez op_bgezal op_bgtz
        op_blez op_bltz op_bltzal op_bne op_j op_jal op_jalr op_jr op_syscall op_lb op_lbu op_lh
        op_lhu op_lw op_sb op_sh op_sw :
      OpcodeId
