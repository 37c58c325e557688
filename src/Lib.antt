-- ===== src/Lib.antt =====
-- The TOYRISCV backend of LLVM: target expressions, the lowering of machine instructions and the printing of
-- operands, the lowering of branches, selects and addresses in the selection DAG, the insertion of branches
-- for selects, arguments and results of functions, frame indices, copies, data layouts, and target triples.
--
-- The backend (llvm/lib/Target/TOYRISCV) turns LLVM's selection DAG into RISC-V instructions for the
-- architectures toyriscv32 and toyriscv64, which the repository's own versions of
-- llvm/lib/Support/Triple.cpp and llvm/include/llvm/ADT/Triple.h add to LLVM. A module is compiled for a
-- triple, whose architecture gives the width of registers. The DAG lowering rewrites the nodes for
-- branches, selects and global addresses into nodes that the instructions implement; a global address
-- carries target flags (OperandFlag). When the instructions are written out, the MC lowering turns each
-- flag into a variant kind (VariantKind) of a target expression, which the assembler prints, or evaluates
-- into the high or low part of a value.
--
-- Files
--   Base            what the other modules share: Boolean tests, lists and texts, StringSwitch as a table
--                   (Base/Switch), words of the register width (Base/Words), and how a function ends
--                   (Base/Outcomes): with a value, or by stopping the compiler (report_fatal_error,
--                   llvm_unreachable, abort, a failed assertion).
--   Mc/BaseInfo     the target flags of MCTargetDesc/TOYRISCVBaseInfo.h.
--   Mc/Expr         MCTargetDesc/TOYRISCVMCExpr.h and .cpp: create, getVariantKindForName,
--                   getVariantKindName, printImpl, evaluateAsInt64, evaluateAsConstant,
--                   evaluateAsRelocatableImpl, fixELFSymbolsInTLSFixups, getPCRelHiFixup. Proofs in
--                   Mc/Expr/Names, Immediates, Tls and Evaluate.
--   Mc/InstLower    TOYRISCVMCInstLower.cpp: lowerSymbolOperand and the two entry points. Proofs in
--                   Mc/InstLower/Operands and Instructions.
--   Lowering/Dag    the interface to the selection DAG: the nodes that the code makes and looks at, and
--                   what each evaluates to. Lowering/Sample fills it with a concrete DAG.
--   Lowering/Cond   translateSetCCForBranch of TOYRISCVISelLowering.cpp, getRISCVCCForIntCC of
--                   TOYRISCVISelDagToDag.h and getBrCond of TOYRISCVInstrInfo.cpp. Proofs in
--                   Lowering/Cond/Preserve.
--   Lowering/Custom lowerBRCOND, lowerSELECT, getAddr, lowerGlobalAddress and LowerOperation of
--                   TOYRISCVISelLowering.cpp. Proofs in Lowering/Custom/Branches, Selects, Addresses and
--                   Operations.
--   Frame           hasFP of TOYRISCVFrameLowering.cpp, getFrameRegister and eliminateFrameIndex of
--                   TOYRISCVRegisterInfo.cpp. Proofs in Frame/Laws.
--   Subtarget       initializeSubtargetDependencies of TOYRISCVSubtarget.cpp: the CPU and the width of
--                   registers from the triple.
--   Lowering/Inserter EmitInstrWithCustomInserter and emitSelectPseudo of TOYRISCVISelLowering.cpp: the new
--                   blocks from the instructions of a block, and Blocks, the blocks in their function.
--                   Run and Steps say what instructions, blocks and functions do. Proofs in Scan, Writes,
--                   Straight, Emit and Equivalent for one block, and in Layout, Follow, Placed and Refine for
--                   a function.
--   Calls           Lower: LowerFormalArguments and LowerReturn of TOYRISCVISelLowering.cpp; Conventions:
--                   TOYRISCVCallingConv.td. Proofs in Calls/Places, Incoming and Outgoing.
--   Moves           copyPhysReg of TOYRISCVInstrInfo.cpp and Select of TOYRISCVISelDagToDag.cpp. Proofs in
--                   Moves/Laws.
--   Machine         computeDataLayout and getEffectiveRelocModel of TOYRISCVTargetMachine.cpp and the CPU of
--                   createTOYRISCVMCSubtargetInfo. Proofs in Machine/Layout, with the reading of a data layout.
--   Mc/Printer      printOperand and printRegName of MCTargetDesc/TOYRISCVInstPrinter.cpp. Proofs in
--                   Mc/Printer/Operands.
--   Lowering/Actions  the actions that the constructor of TOYRISCVTargetLowering sets, in
--                   TOYRISCVISelLowering.cpp. Proofs in Lowering/Actions/Handled.
--   Registers       the registers of TOYRISCVRegisterInfo.td, getReservedRegs of TOYRISCVRegisterInfo.cpp and
--                   CSR_LP32 of TOYRISCVCallingConv.td. Proofs in Registers/Laws.
--   Machine/Abi     computeTargetABI of MCTargetDesc/TOYRISCVABIInfo.cpp.
--   Triple/ArmCpu   getARMCPUForArch of Triple.cpp. Proofs in Triple/ArmCpuLaws.
--   Triple/Types, Host, ArchNames, ArchName, Names, ArchCases, ParseArch, LlvmNames, Parse, Formats, Properties,
--   Widths, Endians the enumerations and tables of Triple.h and Triple.cpp.
--   Triple/Target   the class Triple: fields, constructors, accessors and the setters of names;
--   Triple/Normalize  Triple::normalize, with the moves of components in Normalize/Moves and what is parsed
--                   and searched for in Normalize/Parts. Proofs in its other children.
--   Triple/Predicates the predicates of Triple.h, on systems and on architectures. Proofs in its children Laws,
--                   WidthLaws and FormatLaws; Triple/Numbers has the enumerators as numbers and operator==.
--   Triple/Versions  the versions in the texts of triples, merge, and in Triple/Versions/Compatible
--                   isCompatibleWith. Proofs in its children.
--   Triple/Setters  the setters of enumerators; Triple/Variants the variants of width and byte order.
--                   Proofs in Triple/NameLaws, NameTables, ArchLaws, Accessors, SetterLaws, WidthLaws,
--                   EndianLaws and VariantLaws.
--   */Tests         instances of the theorems, and runs of the definitions.
--
-- Numbers. A word of the register width is a number below 2 ^ 32 or 2 ^ 64 with the wrap written out
-- (Base/Words); the 64-bit values of target expressions are numbers below 2 ^ 64 in two's complement. A
-- text is the list of its code points.
--
-- Loops. All are by structural recursion on lists, texts or expressions, and the run of a function is
-- a relation of steps, so no function has fuel but push_right of
-- Triple/Normalize/Moves: it pushes a component to the right until it is at Pos, in at most Pos rounds, and
-- each round takes it on by a position at least. The
-- split of a triple takes the number of splits, 3, that the source passes.
--
-- Parameters. The code of LLVM outside the repository is not defined here. The selection DAG is the
-- record Dag of Lowering/Dag, MCExpr::evaluateAsRelocatable and SignExtend64 are parameters of Mc/Expr,
-- the symbols of AsmPrinter those of Mc/InstLower, the layout of a frame (getFrameIndexReference) that
-- of Frame, the parser of features that of Subtarget, and the parser of ARM names with the host's byte
-- order is the record Host of Triple/Host; SDNode::getOpcode is the record Opcodes of
-- Lowering/Actions/Handled, which ties it to what a node is; the linker, the table of global offsets
-- and the expansions of PseudoLLA and PseudoLA are the record Relocations of Lowering/Custom/Addresses,
-- with the place of the instructions; VersionTuple is the record of Triple/Versions, with the order
-- that it documents as the record Lawful of Triple/Versions/Laws. StringRef, StringSwitch, Twine and
-- std::swap are used as the standard types of strings that they are, and are written out as functions
-- on texts. CCState, which applies a convention to a list of types, is the record CallState of
-- Calls/Conventions; the names of registers and the printing of plain expressions are the record Tables
-- of Mc/Printer; collectDebugValues and the effects of instructions other than selects, branches and
-- PHIs are parameters of Lowering/Inserter.
--
-- Not modelled: calls out of a function, prologues and epilogues, which are empty, instruction encodings and
-- patterns, which TableGen reads, the printing of whole instructions, and the registration of the target and
-- of its machine.
mod Base
pub mod Mc
pub mod Lowering
pub mod Calls
pub mod Frame
pub mod Moves
pub mod Registers
pub mod Triple
pub mod Subtarget
pub mod Machine
